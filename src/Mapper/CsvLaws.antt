-- ===== src/Mapper/CsvLaws.antt =====
-- The value that `DoMap` of mapper/csv.go gives a path, and the values that an expression is given.
use gosk.Prelude.{ℕ, String, str_eq, List, [], ◌∷◌, if◌then◌else◌, Option, none}
use gosk.Message.Values.{Foreign, GoValue}
use gosk.Mapper.Expressions.{Engine}
use gosk.Mapper.ModbusValues.{or_else}
use gosk.Mapper.Csv.{CsvCalls, CsvMappingConfig, line_output}

module _ {w : Foreign} (e : Engine w) (calls : CsvCalls w) where
  -- The first output that a mapping has for a line, and the first one of all mappings of a path.
  abbrev pub first_of_lines :
      List ℕ → CsvMappingConfig w → List (List ℕ) → String → Option (GoValue w)
  first_of_lines separator c [] p = none
  first_of_lines separator c (line ∷ lines) p =
      or_else e (if str_eq c.mapping.path p then line_output e calls separator c line else none)
        (first_of_lines separator c lines p)

  abbrev pub first_of_mappings :
      List ℕ → List (List ℕ) → List (CsvMappingConfig w) → String → Option (GoValue w)
  first_of_mappings separator lines [] p = none
  first_of_mappings separator lines (c ∷ rest) p =
      or_else e (first_of_lines separator c lines p) (first_of_mappings separator lines rest p)
