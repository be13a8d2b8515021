-- ===== src/Mapper/Registers.antt =====
-- mapper/modbus.go, the first half of `DoMap`: what a frame of registers or coils puts into the
-- environment of the expressions.
use gosk.Prelude.{
  ℕ, suc, ◌/◌, ◌==◌, ◌||◌, List, [], ◌∷◌, if◌then◌else◌, Option, none, some, Outcome, ok, panic,
}
use gosk.Prelude.Int.{ℤ, pos, negsuc, sub_ℕ, ◌+ℤ◌, ◌-ℤ◌, ltb_ℤ}
use gosk.Prelude.Assoc.{lookup, insert}
use gosk.Message.Values.{Foreign}
use gosk.Message.Delta.{Time, zero_time}
use gosk.Modbus.FunctionCode
use gosk.Modbus.Codec.{registers_to_coils}
use gosk.Mapper.Expressions.{
  Environment, EnvValue, coils, registers, deltas, timestamps, time_deltas,
}
use gosk.Mapper.Process.{MapError}

-- `m[address+i] = values[i]` for each i, into a new map, and `m[k]` with the zero value.
unfoldable pub numbered {ℓ} : {A : Type ℓ} → ℕ → List A → List (ℕ × A)
numbered address [] = []
numbered address (v ∷ values) = (address, v) ∷ numbered (suc address) values

unfoldable pub get {ℓ} : {A : Type ℓ} → A → ℕ → List (ℕ × A) → A
get zero_value k [] = zero_value
get zero_value k ((j, v) ∷ m) = if j == k then v else get zero_value k m

-- The difference of two readings, corrected where it looks like an overflow.
unfoldable pub register_delta : ℕ → ℕ → ℤ
register_delta register previous =
    let delta = pos register -ℤ pos previous in
    if ltb_ℤ delta (negsuc 49999)
    then delta +ℤ pos 65535
    else if ltb_ℤ (pos 50000) delta
    then delta -ℤ pos 65535
    else delta

-- `Time.Sub`, which saturates, and `Duration.Milliseconds`, which truncates.
abbrev pub sub_time : Time → Time → ℤ
sub_time t u =
    let d = t -ℤ u in
    if ltb_ℤ (pos 9_223_372_036_854_775_807) d
    then pos 9_223_372_036_854_775_807
    else if ltb_ℤ d (negsuc 9_223_372_036_854_775_807)
    then negsuc 9_223_372_036_854_775_807
    else d

abbrev pub milliseconds : ℤ → ℤ
milliseconds (pos n) = pos (n / 1_000_000)
milliseconds (negsuc n) = sub_ℕ 0 (suc n / 1_000_000)

-- The loop over the registers, at the address of the first one.
unfoldable pub register_deltas : ℕ → List ℕ → List (ℕ × ℕ) → List (ℕ × ℤ)
register_deltas address [] previous = []
register_deltas address (r ∷ rest) previous =
    (address, register_delta r (get 0 address previous))
    ∷ register_deltas (suc address) rest previous

unfoldable pub register_time_deltas : Time → ℕ → List ℕ → List (ℕ × Time) → List (ℕ × ℤ)
register_time_deltas now address [] old = []
register_time_deltas now address (r ∷ rest) old =
    (address, milliseconds (sub_time now (get zero_time address old)))
    ∷ register_time_deltas now (suc address) rest old

unfoldable pub first_deltas : List ℕ → List ℤ
first_deltas [] = []
first_deltas (r ∷ rest) = pos r ∷ first_deltas rest

unfoldable pub same_time : Time → List ℕ → List Time
same_time now [] = []
same_time now (r ∷ rest) = now ∷ same_time now rest

module _ {w : Foreign} where
  -- The type assertions `.(map[int]uint16)` and `.(map[int]time.Time)`.
  abbrev pub as_registers : Option (EnvValue w) → Option (List (ℕ × ℕ))
  as_registers (some (registers m)) = some m
  as_registers _ = none

  abbrev pub as_timestamps : Option (EnvValue w) → Option (List (ℕ × Time))
  as_timestamps (some (timestamps m)) = some m
  as_timestamps _ = none

  abbrev pub put_registers :
      Time → ℕ → List ℕ → List (ℕ × ℤ) → List (ℕ × ℤ) → Environment w → Environment w
  put_registers now address values changes times env = insert "timedeltas" (time_deltas times) (
      insert "timestamps" (timestamps (numbered address (same_time now values))) (
        insert "registers" (registers (numbered address values))
          (insert "deltas" (deltas changes) env)))

  -- The type assertion on the timestamps panics if there are registers and no timestamps.
  unfoldable pub on_registers : Time → ℕ → List ℕ → Environment w → Outcome MapError (Environment w)
  on_registers now address values env = elim (as_registers (lookup "registers" env)) [
    | none ↦ ok (put_registers now address values (numbered address (first_deltas values)) [] env)
    | some previous ↦ elim (as_timestamps (lookup "timestamps" env)) [
      | none ↦ panic
      | some old ↦ ok (
          put_registers now address values (register_deltas address values previous)
            (register_time_deltas now address values old) env)
    ]
  ]

  unfoldable pub on_frame : Time → ℕ → ℕ → List ℕ → Environment w → Outcome MapError (Environment w)
  on_frame now function_code address values env =
      if function_code == FunctionCode.read_coils
        || function_code == FunctionCode.read_discrete_inputs
      then ok (insert "coils" (coils (numbered address (registers_to_coils values))) env)
      else if function_code == FunctionCode.read_holding_registers
          || function_code == FunctionCode.read_input_registers
      then on_registers now address values env
      else ok env
