-- ===== src/Database/Queries.antt =====
-- database/postgresql.go, the queries on which the transfer of missing data stands. The database is
-- the parameter `Connection`, with one operation for each SQL statement.
use gosk.Prelude.{
  Bool, false, ◌||◌, ◌==◌, String, List, [], ◌∷◌, ◌++◌, Option, none, some, if◌then◌else◌,
}
use gosk.Prelude.Int.{ℤ, pos}
use gosk.Prelude.Assoc.{Assoc, lookup, insert}
use gosk.Prelude.Table.{put}
use gosk.Message.Values.{Foreign, int_equal}
use gosk.Message.Delta.{Time, Uuid, SingleValueMapped}
use gosk.Database.Rows.{Rows, Row, no_rows, failed, overdue, row, read_rows}

-- What `Exec` gives: whether it failed, and whether its time was up.
pub record Executed : Type 0 where
  pub has_failed : Bool
  pub is_late : Bool

-- A query may change the state, so that it can fail now and succeed later.
pub record Connection (w : Foreign) (Logged : Type 0) : Type 1 where
  pub State : Type 0
  pub first_mapped_data_per_origin : State → Rows (String × Time) × State
  pub existing_remote_counts : Time → State → Rows (String × Time) × State
  pub incomplete_periods : State → Rows (String × Time) × State
  pub local_count : String → Time → State → Row ℤ × State
  pub mapped_count_per_uuid : String → Time → State → Rows (Uuid × ℤ) × State
  -- `WHERE "uuid" = ANY ($1) AND "time" BETWEEN $2 AND $2 + '5m'::interval`
  pub mapped_of_uuids : List Uuid → Time → State → Rows (SingleValueMapped w) × State
  pub insert_or_update_remote_data : Time → String → ℤ → State → Executed × State
  pub log_transfer_insert : String → Logged → State → Executed × State

-- A set of times, the type `map[time.Time]struct{}`, as a list.
abbrev pub has_time : Time → List Time → Bool
has_time p [] = false
has_time p (q ∷ times) = int_equal q p || has_time p times

abbrev pub add_time : Time → List Time → List Time
add_time p times = if has_time p times then times else p ∷ times

abbrev pub or_empty : {A : Type 0} → Option (List A) → List A
or_empty none = []
or_empty (some xs) = xs

module _ {w : Foreign} {Logged : Type 0} (c : Connection w Logged) where
  unfoldable pub select_first_mapped_data_per_origin : c.State → Option (Assoc Time) × c.State
  select_first_mapped_data_per_origin s =
      let (rows, s') = c.first_mapped_data_per_origin s in
      (read_rows (λ result (origin, min_start). insert origin min_start result) [] rows, s')

  abbrev pub add_count : Assoc (List Time) → String × Time → Assoc (List Time)
  add_count result (origin, start) =
      insert origin (add_time start (or_empty (lookup origin result))) result

  unfoldable pub select_existing_remote_counts :
      Time → c.State → Option (Assoc (List Time)) × c.State
  select_existing_remote_counts from s =
      let (rows, s') = c.existing_remote_counts from s in (read_rows add_count [] rows, s')

  abbrev pub add_period : Assoc (List Time) → String × Time → Assoc (List Time)
  add_period result (origin, start) =
      insert origin (or_empty (lookup origin result) ++ start ∷ []) result

  unfoldable pub select_incomplete_periods : c.State → Option (Assoc (List Time)) × c.State
  select_incomplete_periods s =
      let (rows, s') = c.incomplete_periods s in (read_rows add_period [] rows, s')

  abbrev pub count_of : Row ℤ → Option ℤ
  count_of no_rows = some (pos 0)
  count_of failed = none
  count_of overdue = none
  count_of (row count) = some count

  unfoldable pub select_count_mapped : String → Time → c.State → Option ℤ × c.State
  select_count_mapped origin start s =
      let (found, s') = c.local_count origin start s in (count_of found, s')

  unfoldable pub select_count_per_uuid :
      String → Time → c.State → Option (List (Uuid × ℤ)) × c.State
  select_count_per_uuid origin start s =
      let (rows, s') = c.mapped_count_per_uuid origin start s in
      (read_rows (λ result (uuid, count). put ◌==◌ uuid count result) [] rows, s')

  -- The Boolean of both insertions says whether they return an error.
  unfoldable pub create_remote_count : Time → String → ℤ → c.State → Bool × c.State
  create_remote_count start origin count s =
      let (done, s') = c.insert_or_update_remote_data start origin count s in
      (done.is_late || done.has_failed, s')

  unfoldable pub log_transfer_request : String → Logged → c.State → Bool × c.State
  log_transfer_request origin message s =
      let (done, s') = c.log_transfer_insert origin message s in
      (done.is_late || done.has_failed, s')
