-- ===== src/Database/Batch.antt =====
-- database/postgresql.go: rows are queued in a batch, which is sent when it is long or old enough.
use gosk.Prelude.{ℕ, zero, suc, String, List, [], ◌∷◌, ◌++◌, length, if◌then◌else◌}
use gosk.Prelude.Int.{ℤ, pos, ltb_ℤ, ◌+ℤ◌}
use gosk.Message.Values.{Foreign}
use gosk.Message.RawMessage.{Raw}
use gosk.Message.Delta.{Time, Mapped, SingleValueMapped, to_single_value_mapped}
use gosk.Database.MappedRows.{row_of}

-- A queued statement.
pub data Statement (w : Foreign) : Type 0 where
  raw_insert : Raw → Statement w
  mapped_insert : SingleValueMapped w → Statement w

-- What closing the results of a batch says: all went well, an error, or an error after the timeout.
pub data Closed : Type 0 where
  well : Closed
  with_error : Closed
  timed_out : Closed

-- `started` counts the goroutines that `go db.flushBatch()` made and that did not run yet; `sent`
-- holds the batches that were given to the database, with what came of each.
pub record Store (w : Foreign) : Type 0 where
  pub batch : List (Statement w)
  pub batch_size : ℤ
  pub last_flush : Time
  pub started : ℕ
  pub sent : List (List (Statement w) × Closed)
  pub flushes : ℕ
  pub writes : ℕ
  pub timeouts : ℕ

module _ {w : Foreign} where
  -- `now` is the clock at the end of a flush that goes well.
  abbrev pub after_flush : Time → Closed → Store w → Store w
  after_flush now well s = record s { last_flush = now }
  after_flush now with_error s = s
  after_flush now timed_out s = record s { timeouts = suc s.timeouts }

  unfoldable pub flush_batch : Time → Closed → Store w → Store w
  flush_batch now closed s = elim s.batch [
    | [] ↦ s
    | q ∷ batch ↦ after_flush now closed (record s {
      batch = [];
      flushes = suc s.flushes;
      sent = s.sent ++ ((q ∷ batch), closed) ∷ [];
    })
  ]

-- What happens to a store: writes, a started goroutine that runs, and a tick of its timer.
pub data Event (w : Foreign) : Type 0 where
  raw_written : Raw → Event w
  mapped_written : Mapped w → Event w
  flush_runs : Time → Closed → Event w
  tick : ℤ → Time → Time → Closed → Event w

module _ {w : Foreign} (quote : String → String) where
  -- `db.batch.Queue`, and a flush in a goroutine of its own if the batch is longer than its size.
  unfoldable pub queue : Statement w → Store w → Store w
  queue q s =
      let batch = s.batch ++ q ∷ [] in
      record s {
        batch = batch;
        writes = suc s.writes;
        started = if ltb_ℤ s.batch_size (pos (length batch)) then suc s.started else s.started;
      }

  unfoldable pub write_raw : Raw → Store w → Store w
  unfolding queue
  write_raw r s = queue (raw_insert r) s

  unfoldable pub write_single_value_mapped : SingleValueMapped w → Store w → Store w
  unfolding queue row_of
  write_single_value_mapped v s = queue (mapped_insert (row_of quote v)) s

  unfoldable pub write_singles : List (SingleValueMapped w) → Store w → Store w
  unfolding write_single_value_mapped
  write_singles [] s = s
  write_singles (v ∷ singles) s = write_singles singles (write_single_value_mapped v s)

  unfoldable pub write_mapped : Mapped w → Store w → Store w
  unfolding write_singles to_single_value_mapped
  write_mapped m s = write_singles (to_single_value_mapped m) s

  unfoldable pub step : Event w → Store w → Store w
  unfolding write_raw write_mapped flush_batch
  step (raw_written r) s = write_raw r s
  step (mapped_written m) s = write_mapped m s
  step (flush_runs now closed) s = elim s.started [
    | zero ↦ s
    | suc n ↦ flush_batch now closed (record s { started = n })
  ]
  step (tick interval before now closed) s =
      if ltb_ℤ (s.last_flush +ℤ interval) before then flush_batch now closed s else s

  unfoldable pub run : List (Event w) → Store w → Store w
  unfolding step
  run [] s = s
  run (e ∷ events) s = run events (step e s)
