-- ===== src/Mapper/ModbusValues.antt =====
-- The value that `DoMap` of mapper/modbus.go gives a path: the first mapping that has an output wins.
use gosk.Prelude.{
  ◌≡◌, refl, ◌&&◌, ◌+◌, ◌<◌, ◌==◌, leb, Bool, String, str_eq, eq_iff, List, [], ◌∷◌, ◌++◌,
  if◌then◌else◌, Option, none, some, arith,
}
use gosk.Message.Values.{Foreign, GoValue}
use gosk.Message.Delta.{Value, Update, add_value, get_value_by_path, find_path}
use gosk.Modbus.Codec.{ModbusHeader}
use gosk.Mapper.Expressions.{Environment, Engine, run_expr}
use gosk.Mapper.Modbus.{ModbusMappingsConfig, put_output, put_found}

module _ {w : Foreign} (e : Engine w) where
  abbrev pub value_at : Update w → String → Option (GoValue w)
  value_at u p = elim (get_value_by_path u p) [ none ↦ none | some v ↦ some v.value ]

  abbrev pub or_else : Option (GoValue w) → Option (GoValue w) → Option (GoValue w)
  or_else none later = later
  or_else (some v) later = some v

  -- The registers of `wanted` are among those of `got`, of the same slave and function.
  abbrev pub fits : ModbusHeader → ModbusHeader → Bool
  fits wanted got =
      (wanted.slave == got.slave && wanted.function_code == got.function_code)
      && (leb got.address wanted.address
          && leb (wanted.address + wanted.number_of_coils_or_registers)
              (got.address + got.number_of_coils_or_registers))

  -- The registers end within the addresses of 16 bits.
  abbrev pub IsInRange : ModbusHeader → Type 0
  IsInRange h = h.address + h.number_of_coils_or_registers < 65536

  -- What a mapping gives a path, and the first mapping of a list that gives it anything.
  abbrev pub output_for :
      Environment w → ModbusHeader → ModbusMappingsConfig w → String → Option (GoValue w)
  output_for env got c p =
      if fits c.header got && str_eq c.mapping.path p then run_expr e env c.mapping else none

  abbrev pub first_output :
      Environment w → ModbusHeader → List (ModbusMappingsConfig w) → String → Option (GoValue w)
  first_output env got [] p = none
  first_output env got (c ∷ rest) p = or_else (output_for env got c p) (first_output env got rest p)

  find_path-append :
      (values : List (Value w)) (v : Value w) (p : String)
      → find_path (values ++ v ∷ []) p ≡ elim (find_path values p) [
        | some found ↦ some found
        | none ↦ if str_eq v.path p then some v else none
      ]
  find_path-append [] v p = ground arith
  find_path-append (x ∷ values) v p = ground (arith, find_path-append values v p)

  pub value_at-put_output :
      (path p : String) (output : GoValue w) (u : Update w)
      → value_at (put_output e path output u) p
        ≡ or_else (value_at u p) (if str_eq path p then some output else none)
  unfolding put_output get_value_by_path add_value
  value_at-put_output path p output u =
      ground
        (arith, eq_iff path p, find_path-append u.values (record { path = path; value = output }) p)

  pub value_at-put_found :
      (path p : String) (output : Option (GoValue w)) (u : Update w)
      → value_at (put_found e path output u) p
        ≡ or_else (value_at u p) (if str_eq path p then output else none)
  value_at-put_found path p none u = ground arith
  value_at-put_found path p (some output) u = value_at-put_output path p output u

  pub or_else_assoc :
      (a b c : Option (GoValue w)) → or_else (or_else a b) c ≡ or_else a (or_else b c)
  or_else_assoc none b c = refl
  or_else_assoc (some v) b c = refl
