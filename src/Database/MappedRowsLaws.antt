-- ===== src/Database/MappedRowsLaws.antt =====
-- What database/postgresql.go reads back of a single value that it stored.
use gosk.Prelude.{
  ◌≡◌, ◌≢◌, refl, ap, Bool-cases, inl, inr, Option-cases, ◌||◌, if◌then◌else◌, String, str_eq,
  eq_iff, arith,
}
use gosk.Message.Values.{
  Foreign, GoValue, nil, int64, float64, text, boolean, vessel_info, vessel_type, position,
  length_value, alarm, draft, other,
}
use gosk.Message.Decoding.{Mapstructure}
use gosk.Message.Delta.{SingleValueMapped}
use gosk.Database.MappedRows.{row_of, of_row, empty_path, decoded_or_same}

abbrev stored_path : {w : Foreign} → GoValue w → String → String
stored_path v p = if str_eq p "" then empty_path v else p

abbrev read_path : String → String
read_path p = if str_eq p "mmsi" || str_eq p "name" then "" else p

path-back :
    {w : Foreign} (v : GoValue w) (p : String)
    → p ≢ "mmsi"
    → p ≢ "name"
    → read_path (stored_path v p) ≡ p
path-back v p not_mmsi not_name = elim (Bool-cases (str_eq p "")) [
  | inl e ↦ rw ((eq_iff p "").0 e) (empty v)
  | inr e ↦ rw e (ground (arith, eq_iff p "mmsi", eq_iff p "name", not_mmsi, not_name))
]
  where
    empty : {w : Foreign} (v : GoValue w) → read_path (empty_path v) ≡ ""
    empty (vessel_info v) = elim (Option-cases v.mmsi) [
      | inl e ↦ rw e refl
      | inr (mmsi, e) ↦ rw e refl
    ]
    empty nil = refl
    empty (int64 i) = refl
    empty (float64 f) = refl
    empty (text t) = refl
    empty (boolean b) = refl
    empty (vessel_type t) = refl
    empty (position l) = refl
    empty (length_value l) = refl
    empty (alarm a) = refl
    empty (draft d) = refl
    empty (other o) = refl

module _ {w : Foreign} (quote : String → String) (m : Mapstructure w) where
  -- A value that is stored comes back under its path, context, origin, source and time, if its path is
  -- not one of the two that stand for the empty path; `v` is what the column gives for the value.
  pub of_row-row_of :
      (s : SingleValueMapped w) (v : GoValue w)
      → s.path ≢ "mmsi"
      → s.path ≢ "name"
      → of_row m (record (row_of quote s) { value = v }) ≡ record s { value = decoded_or_same m v }
  unfolding of_row row_of
  of_row-row_of s v not_mmsi not_name =
      ap (λ p. record s { value = decoded_or_same m v; path = p })
        (path-back s.value s.path not_mmsi not_name)
