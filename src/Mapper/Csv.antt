-- ===== src/Mapper/Csv.antt =====
-- mapper/csv.go, `DoMap`: lines of separated values become a delta with one value for each path that
-- a mapping has an output for. The packages regexp and, for floats, strconv are the parameter
-- `CsvCalls`.
use gosk.Prelude.{
  ℕ, Bool, true, false, String, str_eq, List, [], ◌∷◌, map, if◌then◌else◌, Option, none, some,
  Outcome, ok, err,
}
use gosk.Prelude.Int.{ℤ, pos}
use gosk.Prelude.Assoc.{insert}
use gosk.Message.Values.{Foreign, GoValue}
use gosk.Message.Delta.{Source, Update, Mapped, add_update}
use gosk.Message.RawMessage.{Raw}
use gosk.Connector.Lines.{scan}
use gosk.Mapper.Process.{MapError, cannot_be_mapped}
use gosk.Mapper.Expressions.{
  Environment, MappingConfig, Engine, string_values, float_values, int_values,
  new_expression_environment, run_expr,
}
use gosk.Mapper.Modbus.{put_found}
use gosk.Mapper.CsvFields.{cut_prefix, split, swap_point_and_comma, parse_int}

-- `compile` gives `ReplaceAllString` of a regular expression, if that can be compiled.
pub record CsvCalls (w : Foreign) : Type 0 where
  pub parse_float : List ℕ → Option w.Float
  pub zero_float : w.Float
  pub compile : String → Option (List ℕ → List ℕ → List ℕ)

pub record CsvMappingConfig (w : Foreign) : Type 0 where
  pub mapping : MappingConfig w
  pub begins_with : List ℕ
  pub regex : String
  pub replace_with : List ℕ

pub record CsvMapper (w : Foreign) : Type 0 where
  pub context : String
  pub separator : List ℕ
  pub split_lines : Bool
  pub protocol : String
  pub mappings : List (CsvMappingConfig w)

abbrev pub new_csv_mapper :
    {w : Foreign} → String → List ℕ → Bool → List (CsvMappingConfig w) → CsvMapper w
new_csv_mapper context separator split_lines mappings = record {
  context = context;
  separator = separator;
  split_lines = split_lines;
  protocol = "csv";
  mappings = mappings;
}

-- The lines of a message; an error of the scanner is not looked at.
unfoldable pub lines_of : Bool → List ℕ → List (List ℕ)
lines_of true value = let s = scan value in s.tokens
lines_of false value = value ∷ []

module _ {w : Foreign} (e : Engine w) (calls : CsvCalls w) where
  -- What a mapping does to each of the values, if its regular expression can be compiled.
  abbrev pub replacer : CsvMappingConfig w → Option (List ℕ → List ℕ)
  replacer c = if str_eq c.regex "" then some (λ s. s) else elim (calls.compile c.regex) [
    | none ↦ none
    | some replace_all ↦ some (λ s. replace_all s c.replace_with)
  ]

  abbrev or_float : Option w.Float → w.Float → w.Float
  or_float none y = y
  or_float (some x) y = x

  abbrev pub float_value : List ℕ → w.Float
  float_value s =
      or_float (calls.parse_float s)
        (or_float (calls.parse_float (swap_point_and_comma s)) calls.zero_float)

  abbrev or_zero : Option ℤ → ℤ
  or_zero none = pos 0
  or_zero (some n) = n

  abbrev pub int_value : List ℕ → ℤ
  int_value s = or_zero (parse_int s)

  abbrev pub csv_environment : List (List ℕ) → Environment w
  csv_environment values = insert "intValues" (int_values (map int_value values)) (
      insert "floatValues" (float_values (map float_value values))
        (insert "stringValues" (string_values values) new_expression_environment))

  -- The output of a mapping for the line behind its prefix.
  abbrev pub rest_output :
      List ℕ → CsvMappingConfig w → Option (List ℕ → List ℕ) → List ℕ → Option (GoValue w)
  rest_output separator c none rest = none
  rest_output separator c (some replace) rest =
      run_expr e (csv_environment (map replace (split rest separator))) c.mapping

  unfoldable pub line_output : List ℕ → CsvMappingConfig w → List ℕ → Option (GoValue w)
  line_output separator c line = elim (cut_prefix c.begins_with line) [
    | none ↦ none
    | some rest ↦ rest_output separator c (replacer c) rest
  ]

  -- The inner loop.
  unfoldable pub map_lines : List ℕ → CsvMappingConfig w → List (List ℕ) → Update w → Update w
  unfolding line_output
  map_lines separator c [] u = u
  map_lines separator c (line ∷ lines) u =
      map_lines separator c lines (put_found e c.mapping.path (line_output separator c line) u)

  unfoldable pub map_csv_all :
      List ℕ → List (List ℕ) → List (CsvMappingConfig w) → Update w → Update w
  unfolding map_lines
  map_csv_all separator lines [] u = u
  map_csv_all separator lines (c ∷ rest) u =
      map_csv_all separator lines rest (map_lines separator c lines u)

  abbrev pub csv_source : CsvMapper w → Raw → Source
  csv_source m r = record {
    label = r.connector;
    type = m.protocol;
    uuid = r.uuid;
    transfer_uuid = 0;
  }

  abbrev pub csv_answer : CsvMapper w → Raw → Update w → Outcome MapError (Mapped w)
  csv_answer m r u = elim u.values [
    | [] ↦ err (cannot_be_mapped r.value)
    | v ∷ values ↦
        ok (add_update (record { context = m.context; origin = m.context; updates = [] }) u)
  ]

  unfoldable pub map_csv : CsvMapper w → Raw → Outcome MapError (Mapped w)
  unfolding lines_of map_csv_all
  map_csv m r = csv_answer m r (
      map_csv_all m.separator (lines_of m.split_lines r.value) m.mappings
        (record { source = csv_source m r; timestamp = r.timestamp; values = [] }))
