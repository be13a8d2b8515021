-- ===== src/Database/BatchLaws.antt =====
-- No statement is lost or sent twice by the batches of database/postgresql.go.
use mathlib.Core.List.{append_assoc, append-nil}
use gosk.Prelude.{
  ℕ, ◌≡◌, refl, ap, sym, ◌∙◌, Bool-cases, inl, inr, zero, suc, String, List, [], ◌∷◌, ◌++◌,
}
use gosk.Prelude.Int.{ltb_ℤ, ◌+ℤ◌}
use gosk.Message.Values.{Foreign}
use gosk.Message.Delta.{Time, SingleValueMapped, to_single_value_mapped}
use gosk.Database.MappedRows.{row_of}
use gosk.Database.Batch.{
  Statement, raw_insert, mapped_insert, Closed, well, with_error, timed_out, Store, Event,
  raw_written, mapped_written, flush_runs, tick, queue, write_singles, write_single_value_mapped,
  write_raw, write_mapped, after_flush, flush_batch, step, run,
}

module _ {w : Foreign} where
  abbrev pub concat_sent : List (List (Statement w) × Closed) → List (Statement w)
  concat_sent [] = []
  concat_sent ((batch, closed) ∷ sent) = batch ++ concat_sent sent

  -- Every statement that was ever queued, in order.
  abbrev pub all_statements : Store w → List (Statement w)
  all_statements s = concat_sent s.sent ++ s.batch

  concat_sent-append :
      (xs ys : List (List (Statement w) × Closed))
      → concat_sent (xs ++ ys) ≡ concat_sent xs ++ concat_sent ys
  concat_sent-append [] ys = refl
  concat_sent-append ((batch, closed) ∷ xs) ys =
      rw (concat_sent-append xs ys) (sym (append_assoc batch _ _))

  all_statements-after_flush :
      (now : Time) (closed : Closed) (s : Store w)
      → all_statements (after_flush now closed s) ≡ all_statements s
  all_statements-after_flush now well s = refl
  all_statements-after_flush now with_error s = refl
  all_statements-after_flush now timed_out s = refl

  all_statements-flush_batch :
      (now : Time) (closed : Closed) (s : Store w)
      → all_statements (flush_batch now closed s) ≡ all_statements s
  unfolding flush_batch
  all_statements-flush_batch now closed s = cases s.batch refl
    where
      cases :
          (batch : List (Statement w))
          → s.batch ≡ batch
          → all_statements (flush_batch now closed s) ≡ all_statements s
      cases [] e = rw (e, flush_batch) (ap (λ b. concat_sent s.sent ++ b) e)
      cases (q ∷ batch) e =
          rw (e, flush_batch)
            (all_statements-after_flush now closed _
              ∙ append-nil _
              ∙ concat_sent-append s.sent (((q ∷ batch), closed) ∷ [])
              ∙ ap (λ b. concat_sent s.sent ++ b) (append-nil (q ∷ batch)))

module _ {w : Foreign} (quote : String → String) where
  abbrev pub inserts : List (SingleValueMapped w) → List (Statement w)
  inserts [] = []
  inserts (v ∷ singles) = mapped_insert (row_of quote v) ∷ inserts singles

  -- What an event queues.
  abbrev pub queued_by : Event w → List (Statement w)
  queued_by (raw_written r) = raw_insert r ∷ []
  queued_by (mapped_written m) = inserts (to_single_value_mapped m)
  queued_by (flush_runs now closed) = []
  queued_by (tick interval before now closed) = []

  abbrev pub all_queued : List (Event w) → List (Statement w)
  all_queued [] = []
  all_queued (e ∷ events) = queued_by e ++ all_queued events

  all_statements-queue :
      (q : Statement w) (s : Store w)
      → all_statements (queue quote q s) ≡ all_statements s ++ q ∷ []
  unfolding queue
  all_statements-queue q s = sym (append_assoc (concat_sent s.sent) s.batch (q ∷ []))

  all_statements-write_singles :
      (vs : List (SingleValueMapped w)) (s : Store w)
      → all_statements (write_singles quote vs s) ≡ all_statements s ++ inserts vs
  unfolding write_singles write_single_value_mapped
  all_statements-write_singles [] s = sym (append-nil (all_statements s))
  all_statements-write_singles (v ∷ vs) s =
      all_statements-write_singles vs (write_single_value_mapped quote v s)
      ∙ ap (λ x. x ++ inserts vs) (all_statements-queue (mapped_insert (row_of quote v)) s)
      ∙ append_assoc (all_statements s) (mapped_insert (row_of quote v) ∷ []) (inserts vs)

  all_statements-flush_runs :
      (now : Time) (closed : Closed) (s : Store w)
      → all_statements (step quote (flush_runs now closed) s) ≡ all_statements s
  unfolding step
  all_statements-flush_runs now closed s = cases s.started refl
    where
      cases :
          (n : ℕ)
          → s.started ≡ n
          → all_statements (step quote (flush_runs now closed) s) ≡ all_statements s
      cases zero e = rw (e, step) refl
      cases (suc n) e =
          rw (e, step) (all_statements-flush_batch now closed (record s { started = n }))

  all_statements-step :
      (e : Event w) (s : Store w)
      → all_statements (step quote e s) ≡ all_statements s ++ queued_by e
  unfolding step write_raw write_mapped
  all_statements-step (raw_written r) s = all_statements-queue (raw_insert r) s
  all_statements-step (mapped_written m) s =
      all_statements-write_singles (to_single_value_mapped m) s
  all_statements-step (flush_runs now closed) s =
      all_statements-flush_runs now closed s ∙ sym (append-nil (all_statements s))
  all_statements-step (tick interval before now closed) s =
      elim (Bool-cases (ltb_ℤ (s.last_flush +ℤ interval) before)) [
        | inl e ↦
            rw (e, step)
              (all_statements-flush_batch now closed s ∙ sym (append-nil (all_statements s)))
        | inr e ↦ rw (e, step) (sym (append-nil (all_statements s)))
      ]

  -- Whatever is written, flushed and timed out, the statements of all batches sent so far and of the
  -- current one are those of the start and then those that the writes queued, once and in order.
  pub all_statements-run :
      (events : List (Event w)) (s : Store w)
      → all_statements (run quote events s) ≡ all_statements s ++ all_queued events
  unfolding run
  all_statements-run [] s = sym (append-nil (all_statements s))
  all_statements-run (e ∷ events) s =
      all_statements-run events (step quote e s)
      ∙ ap (λ x. x ++ all_queued events) (all_statements-step e s)
      ∙ append_assoc (all_statements s) (queued_by e) (all_queued events)
