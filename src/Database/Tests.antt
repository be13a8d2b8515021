-- ===== src/Database/Tests.antt =====
-- The theorems about database/ at concrete rows and events.
use gosk.Prelude.{◌≡◌, refl, String, eq_iff, List, [], ◌∷◌, ◌++◌, length, arith}
use gosk.Prelude.Int.{pos, ◌+ℤ◌}
use gosk.Message.Values.{text, vessel_info}
use gosk.Message.RawMessage.{Raw}
use gosk.Message.Delta.{SingleValueMapped, to_single_value_mapped}
use gosk.Message.Samples.{sample, decoder, single, named, speed, depth, update, delta_of}
use gosk.Database.MappedRows.{row_of, of_row, decoded_or_same}
use gosk.Database.MappedRowsLaws.{of_row-row_of}
use gosk.Database.Batch.{
  Store, Event, raw_written, mapped_written, flush_runs, tick, well, timed_out, run,
}
use gosk.Database.BatchLaws.{all_statements, all_queued, all_statements-run}

abbrev in_quotes : String → String
in_quotes s = s

abbrev raw : Raw
raw = record { connector = "gps"; timestamp = pos 1; type = "csv"; uuid = 2; value = [] }

abbrev store : Store sample
store = record {
  batch = [];
  batch_size = pos 1;
  last_flush = pos 0;
  started = 0;
  sent = [];
  flushes = 0;
  writes = 0;
  timeouts = 0;
}

-- The third statement starts a flush that times out, and a later tick flushes what is left.
abbrev events : List (Event sample)
events =
    raw_written raw
    ∷ mapped_written (delta_of (update (speed 1 ∷ depth 2 ∷ []) ∷ []))
    ∷ flush_runs (pos 3) timed_out
    ∷ raw_written raw
    ∷ tick (pos 5) (pos 9) (pos 10) well
    ∷ []

all_statements-run_example :
    all_statements (run in_quotes events store)
    ≡ all_statements store ++ all_queued in_quotes events
all_statements-run_example = all_statements-run in_quotes events store

two_batches : length (run in_quotes events store).sent ≡ 2
unfolding run ◌+ℤ◌ to_single_value_mapped
two_batches = refl

abbrev ship_name : SingleValueMapped sample
ship_name = single (vessel_info (named "Evert"))

of_row-row_of_example :
    of_row decoder (record (row_of in_quotes ship_name) { value = text "Evert" })
    ≡ record ship_name { value = decoded_or_same decoder (text "Evert") }
of_row-row_of_example =
    of_row-row_of in_quotes decoder ship_name (text "Evert") (λ e. ground (arith, eq_iff "" "mmsi"))
      (λ e. ground (arith, eq_iff "" "name"))

-- The row of a name has a path.
stored_name : (row_of in_quotes ship_name).path ≡ "name"
unfolding row_of
stored_name = refl
