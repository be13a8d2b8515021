-- ===== src/Mapper/CsvSplit.antt =====
-- The values that an expression of mapper/csv.go is given for a line.
use mathlib.Core.List.{append_assoc, append-nil, map-id}
use gosk.Prelude.{
  ℕ, zero, suc, ◌-◌, ◌≡◌, refl, sym, ap, ◌∙◌, true, false, ◌==◌, ==_iff, List, [], ◌∷◌, ◌++◌, All,
  length, some, none, str_eq, arith, map, if◌then◌else◌,
}
use gosk.Prelude.Int.{ℤ, pos}
use gosk.Prelude.Assoc.{insert}
use gosk.Message.Values.{Foreign}
use gosk.Mapper.Expressions.{
  Environment, Engine, string_values, float_values, int_values, new_expression_environment,
  run_expr,
}
use gosk.Mapper.CsvFields.{cut_prefix, split_piece, split, swap_point_and_comma, parse_int}
use gosk.Mapper.Csv.{
  CsvCalls, CsvMappingConfig, float_value, int_value, csv_environment, line_output,
}

abbrev pub join : List ℕ → List (List ℕ) → List ℕ
join separator [] = []
join separator (field ∷ []) = field
join separator (field ∷ next ∷ fields) = field ++ (separator ++ join separator (next ∷ fields))

-- The separator does not begin in a field.
abbrev pub IsField : ℕ → List ℕ → Type 0
IsField b = All (λ c. (b == c) ≡ false)

cut_prefix-append : (prefix rest : List ℕ) → cut_prefix prefix (prefix ++ rest) ≡ some rest
unfolding cut_prefix
cut_prefix-append [] rest = refl
cut_prefix-append (p ∷ prefix) rest = rw ((==_iff p p).1 refl) (cut_prefix-append prefix rest)

split_piece-field :
    (b : ℕ) (separator piece field rest : List ℕ)
    → IsField b field
    → split_piece (b ∷ separator) piece zero (field ++ rest)
      ≡ split_piece (b ∷ separator) (piece ++ field) zero rest
unfolding split_piece cut_prefix
split_piece-field b separator piece [] rest all =
    ap (λ start. split_piece (b ∷ separator) start zero rest) (sym (append-nil piece))
split_piece-field b separator piece (c ∷ field) rest (here, all) =
    rw (split_piece, cut_prefix, here)
      (split_piece-field b separator (piece ++ c ∷ []) field rest all
        ∙ ap (λ start. split_piece (b ∷ separator) start zero rest)
            (append_assoc piece (c ∷ []) field))

split_piece-passed :
    (separator piece passed rest : List ℕ)
    → split_piece separator piece (length passed) (passed ++ rest)
      ≡ split_piece separator piece zero rest
unfolding split_piece
split_piece-passed separator piece [] rest = refl
split_piece-passed separator piece (c ∷ passed) rest =
    split_piece-passed separator piece passed rest

split_piece-separator :
    (b : ℕ) (separator piece rest : List ℕ)
    → split_piece (b ∷ separator) piece zero (b ∷ separator ++ rest)
      ≡ piece ∷ split_piece (b ∷ separator) [] zero rest
unfolding split_piece
split_piece-separator b separator piece rest =
    let one_less : suc (length separator) - 1 ≡ length separator = omega arith in
    rw (split_piece, cut_prefix-append (b ∷ separator) rest, one_less)
      (ap (◌∷◌ piece) (split_piece-passed (b ∷ separator) [] separator rest))

split-join :
    (b : ℕ) (separator field : List ℕ) (fields : List (List ℕ))
    → All (IsField b) (field ∷ fields)
    → split (join (b ∷ separator) (field ∷ fields)) (b ∷ separator) ≡ field ∷ fields
unfolding split
split-join b separator field [] (here, all) =
    ap (split_piece (b ∷ separator) [] zero) (sym (append-nil field))
    ∙ (split_piece-field b separator [] field [] here ∙ unfold split_piece in refl)
split-join b separator field (next ∷ fields) (here, all) =
    split_piece-field b separator [] field (b ∷ separator ++ join (b ∷ separator) (next ∷ fields))
      here
    ∙ (split_piece-separator b separator field (join (b ∷ separator) (next ∷ fields))
        ∙ ap (◌∷◌ field) (split-join b separator next fields all))

-- The text with a comma for each point and a point for each comma.
abbrev exchange : ℕ → ℕ
exchange c = if c == b'.' then b',' else if c == b',' then b'.' else c

map-exchange : (s : List ℕ) → swap_point_and_comma s ≡ map exchange s
unfolding swap_point_and_comma
map-exchange [] = refl
map-exchange (c ∷ s) = ap (◌∷◌ (exchange c)) (map-exchange s)

map_eq : {A B : Type 0} (f g : A → B) → ((x : A) → f x ≡ g x) → (xs : List A) → map f xs ≡ map g xs
map_eq f g same [] = refl
map_eq f g same (x ∷ xs) = ap (λ y. y ∷ map f xs) (same x) ∙ ap (◌∷◌ (g x)) (map_eq f g same xs)

module _ {w : Foreign} (e : Engine w) (calls : CsvCalls w) where
  -- The float that a field stands for, with a decimal point or else a decimal comma; zero for a field
  -- that is no float.
  abbrev pub float_of : List ℕ → w.Float
  float_of s = elim (calls.parse_float s) [
    | some x ↦ x
    | none ↦ elim (calls.parse_float (map exchange s)) [ some x ↦ x | none ↦ calls.zero_float ]
  ]

  -- The whole number that a field stands for; zero for a field that is none.
  abbrev pub int_of : List ℕ → ℤ
  int_of s = elim (parse_int s) [ none ↦ pos 0 | some n ↦ n ]

  -- A new environment with three more names.
  abbrev pub with_numbers : List (List ℕ) → List ℤ → List w.Float → Environment w
  with_numbers fields ints floats = insert "intValues" (int_values ints) (
      insert "floatValues" (float_values floats)
        (insert "stringValues" (string_values fields) new_expression_environment))

  abbrev pub environment_of : List (List ℕ) → Environment w
  environment_of fields = with_numbers fields (map int_of fields) (map float_of fields)

  float_value-float_of : (s : List ℕ) → float_value e calls s ≡ float_of s
  float_value-float_of s = ground (arith, map-exchange s)

  int_value-int_of : (s : List ℕ) → int_value e calls s ≡ int_of s
  int_value-int_of s = ground arith

  csv_environment-environment_of :
      (fields : List (List ℕ)) → csv_environment e calls fields ≡ environment_of fields
  csv_environment-environment_of fields =
      ap (λ ints. with_numbers fields ints (map (float_value e calls) fields))
        (map_eq (int_value e calls) int_of int_value-int_of fields)
      ∙ ap (with_numbers fields (map int_of fields))
          (map_eq (float_value e calls) float_of float_value-float_of fields)

  -- For a mapping without a regular expression, and a line that is its prefix and then fields joined
  -- by the separator, with at least one field and none in which the separator begins: the expression
  -- is run in a new environment that has under `stringValues` the fields; under `floatValues` for each
  -- of them its float or else that of the field with points and commas exchanged or else zero; and
  -- under `intValues` its whole number or else zero.
  pub line_output-join :
      (c : CsvMappingConfig w) (b : ℕ) (separator field : List ℕ) (fields : List (List ℕ))
      → str_eq c.regex "" ≡ true
      → All (IsField b) (field ∷ fields)
      → line_output e calls
          (b ∷ separator)
          c
          (c.begins_with ++ join (b ∷ separator) (field ∷ fields))
        ≡ run_expr e (environment_of (field ∷ fields)) c.mapping
  unfolding line_output
  line_output-join c b separator field fields plain all =
      rw
        (
          line_output,
          cut_prefix-append c.begins_with (join (b ∷ separator) (field ∷ fields)),
          plain,
        )
        (ap (λ values. run_expr e (csv_environment e calls values) c.mapping)
            (map-id (split (join (b ∷ separator) (field ∷ fields)) (b ∷ separator))
              ∙ split-join b separator field fields all)
          ∙ ap (λ env. run_expr e env c.mapping) (csv_environment-environment_of (field ∷ fields)))
