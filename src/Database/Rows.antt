-- ===== src/Database/Rows.antt =====
-- database/postgresql.go, the loops over the rows of an answer: `rows.Next`, `rows.Scan` and
-- `rows.Err`.
use gosk.Prelude.{Bool, List, [], ◌∷◌, Option, none, some, if◌then◌else◌}

-- What `Query` gives: an error, an answer that came after the timeout, or rows, each of which
-- `Scan` reads or fails on (`none`), with what `rows.Err` says after the last one.
pub data Rows (A : Type 0) : Type 0 where
  refused : Rows A
  late : Rows A
  answered : List (Option A) → Bool → Rows A

-- What `QueryRow` and `Scan` give; `overdue` is a row that was read after the timeout.
pub data Row (A : Type 0) : Type 0 where
  no_rows : Row A
  failed : Row A
  overdue : Row A
  row : A → Row A

module _ {A B : Type 0} (step : B → A → B) where
  unfoldable pub scan_all : List (Option A) → B → Option B
  scan_all [] result = some result
  scan_all (none ∷ rows) result = none
  scan_all (some a ∷ rows) result = scan_all rows (step result a)

  -- The error of a query is `none`.
  unfoldable pub read_rows : B → Rows A → Option B
  unfolding scan_all
  read_rows empty refused = none
  read_rows empty late = none
  read_rows empty (answered rows has_error) = if has_error then none else scan_all rows empty
