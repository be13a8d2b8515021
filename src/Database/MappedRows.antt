-- ===== src/Database/MappedRows.antt =====
-- database/postgresql.go: what a single value is as a row of the table `mapped_data`, and back.
use gosk.Prelude.{
  ◌||◌, String, str_eq, List, [], ◌∷◌, ◌++◌, Option, none, some, if◌then◌else◌, ok, err, panic,
}
use gosk.Message.Values.{Foreign, GoValue, text, vessel_info}
use gosk.Message.Decoding.{Mapstructure, decode, cannot_decode}
use gosk.Message.Delta.{Mapped, SingleValueMapped, to_mapped}
use gosk.Database.Rows.{Rows, read_rows}
use gosk.Database.Queries.{Connection}

module _ {w : Foreign} where
  -- `strconv.Quote` is the parameter `quote`.
  abbrev pub quoted : (String → String) → GoValue w → GoValue w
  quoted quote (text s) = text (quote s)
  quoted quote v = v

  -- The path of a vessel's name or number is empty; any other value there is only logged.
  abbrev pub empty_path : GoValue w → String
  empty_path (vessel_info v) = elim v.mmsi [ none ↦ "name" | some mmsi ↦ "mmsi" ]
  empty_path v = ""

  unfoldable pub row_of : (String → String) → SingleValueMapped w → SingleValueMapped w
  row_of quote s = record s {
    value = quoted quote s.value;
    path = if str_eq s.path "" then empty_path s.value else s.path;
  }

  -- `Decode` returns its input with an error, which is logged.
  abbrev pub decoded_or_same : Mapstructure w → GoValue w → GoValue w
  decoded_or_same m v = elim (decode m v) [
    | ok result ↦ result
    | err (cannot_decode input) ↦ input
    | panic ↦ v
  ]

  unfoldable pub of_row : Mapstructure w → SingleValueMapped w → SingleValueMapped w
  of_row m s = record s {
    value = decoded_or_same m s.value;
    path = if str_eq s.path "mmsi" || str_eq s.path "name" then "" else s.path;
  }

  -- `query` is the statement with its arguments, run on the database.
  unfoldable pub read_mapped :
      {Logged : Type 0} (c : Connection w Logged)
      → Mapstructure w
      → (c.State → Rows (SingleValueMapped w) × c.State)
      → c.State
      → Option (List (Mapped w)) × c.State
  unfolding of_row read_rows
  read_mapped c m query s =
      let (rows, s') = query s in
      (read_rows (λ result r. result ++ to_mapped (of_row m r) ∷ []) [] rows, s')
