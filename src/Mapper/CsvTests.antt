-- ===== src/Mapper/CsvTests.antt =====
-- The theorems about mapper/csv.go at a message of two lines.
use gosk.Prelude.{
  ℕ, ◌+◌, ◌-◌, ◌*◌, ◌==◌, leb, ◌≡◌, refl, ◌++◌, true, if◌then◌else◌, map, String, List, [], ◌∷◌,
  some, none, codes,
}
use gosk.Prelude.Int.{pos, negsuc}
use gosk.Message.Values.{int64, float64}
use gosk.Prelude.Assoc.{lookup, insert}
use gosk.Message.Delta.{Mapped}
use gosk.Message.RawMessage.{Raw}
use gosk.Message.Samples.{sample, decoder}
use gosk.Mapper.Expressions.{
  Engine, int_values, float_values, run_expr, merge_environments, merge_into, decoded,
}
use gosk.Mapper.CsvFields.{swap_point_and_comma, parse_int, digits}
use gosk.Mapper.Csv.{CsvCalls, CsvMappingConfig, CsvMapper, new_csv_mapper, line_output}
use gosk.Mapper.CsvSplit.{join, line_output-join}

-- Every expression is `intValues[0]`.
abbrev first_int : Engine sample
first_int = record {
  Program = String;
  compile = λ text env. some text;
  execute = λ text env. elim (lookup "intValues" env) [
    | some (int_values (n ∷ rest)) ↦ some (int64 n)
    | _ ↦ none
  ];
  is_map = λ o. true;
  decoder = decoder;
}

abbrev calls : CsvCalls sample
calls = record { parse_float = λ s. none; zero_float = 0; compile = λ regex. none }

abbrev config : List ℕ → String → CsvMappingConfig sample
config prefix path = record {
  mapping = record { expression = "intValues[0]"; expression_environment = []; path = path };
  begins_with = prefix;
  regex = "";
  replace_with = [];
}

abbrev mapper : CsvMapper sample
mapper =
    new_csv_mapper "ship" (codes ";") true
      (config (codes "D") "depth" ∷ config [] "depth" ∷ config (codes "S") "speed" ∷ [])

abbrev raw : Raw
raw = record {
  connector = "logger";
  timestamp = pos 5;
  type = "csv";
  uuid = 9;
  value = codes "D12;7" ++ 10 ∷ codes "S3";
}

abbrev delta : Mapped sample
delta = record {
  context = "ship";
  origin = "ship";
  updates =
      record {
        source = record { label = "logger"; type = "csv"; uuid = 9; transfer_uuid = 0 };
        timestamp = pos 5;
        values =
            record { path = "depth"; value = int64 (pos 12) }
            ∷ record { path = "speed"; value = int64 (pos 3) }
            ∷ [];
      }
      ∷ [];
}

-- Texts that are one digit are floats, and so are those with a point behind it, of tenths.
abbrev tenths : CsvCalls sample
tenths = record {
  parse_float = λ s. elim s [
    | c ∷ [] ↦ if leb c 57 then some (10 * (c - 48)) else none
    | c ∷ p ∷ d ∷ [] ↦ if p == b'.' then some (10 * (c - 48) + (d - 48)) else none
    | _ ↦ none
  ];
  zero_float = 0;
  compile = λ regex. none;
}

-- Every expression is a float: the sum of `floatValues`.
abbrev sum : List ℕ → ℕ
sum [] = 0
sum (x ∷ xs) = x + sum xs

abbrev sum_of_floats : Engine sample
sum_of_floats = record first_int {
  Program = String;
  compile = λ text env. some text;
  execute = λ text env. elim (lookup "floatValues" env) [
    | some (float_values xs) ↦ some (float64 (sum xs))
    | _ ↦ none
  ];
}

line_output-join_example :
    line_output sum_of_floats tenths
      (codes ";;")
      (config (codes "D") "depth")
      (codes "D" ++ join (codes ";;") (codes "1,5" ∷ codes "2.3" ∷ codes "x" ∷ []))
    ≡ some (float64 38)
unfolding swap_point_and_comma run_expr merge_environments merge_into decoded lookup insert
    parse_int digits
line_output-join_example =
    line_output-join sum_of_floats tenths (config (codes "D") "depth") b';' (codes ";")
      (codes "1,5") (codes "2.3" ∷ codes "x" ∷ []) refl
      ((refl, (refl, (refl, tt))), ((refl, (refl, (refl, tt))), ((refl, tt), tt)))

swap_point_and_comma_test : swap_point_and_comma (codes "1.234,5") ≡ codes "1,234.5"
unfolding swap_point_and_comma
swap_point_and_comma_test = refl

parse_int_test :
    map parse_int (
      codes "12"
      ∷ codes "-3"
      ∷ codes "+4"
      ∷ codes "007"
      ∷ []
      ∷ codes "x"
      ∷ codes "-"
      ∷ codes "1.5"
      ∷ [])
    ≡ some (pos 12) ∷ some (negsuc 2) ∷ some (pos 4) ∷ some (pos 7) ∷ none ∷ none ∷ none ∷ none ∷ []
unfolding parse_int digits
parse_int_test = refl

-- The bounds of an int64.
parse_int-bounds_test :
    map parse_int (
      codes "9223372036854775807"
      ∷ codes "9223372036854775808"
      ∷ codes "-9223372036854775808"
      ∷ codes "-9223372036854775809"
      ∷ [])
    ≡ some (pos 9_223_372_036_854_775_807)
      ∷ none
      ∷ some (negsuc 9_223_372_036_854_775_807)
      ∷ none
      ∷ []
unfolding parse_int digits
parse_int-bounds_test = refl
