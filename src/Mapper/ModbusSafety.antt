-- ===== src/Mapper/ModbusSafety.antt =====
-- The type assertion in `DoMap` of mapper/modbus.go never fails: the environment never holds
-- registers without timestamps.
use gosk.Prelude.{
  ℕ, ◌≡◌, ◌≢◌, refl, ap, ◌∙◌, Bool-cases, Option-cases, inl, inr, List, [], ◌∷◌, Option, none, some,
  Outcome, ok, err, panic, arith, ◌==◌, ◌||◌, ◌⊎◌, Bool,
}
use gosk.Prelude.Int.{ℤ}
use gosk.Prelude.Assoc.{lookup, insert, lookup-insert}
use gosk.Message.Values.{Foreign}
use gosk.Message.Delta.{Time, Update, Mapped}
use gosk.Modbus.FunctionCode
use gosk.Modbus.Codec.{ModbusHeader}
use gosk.Mapper.Process.{MapError, sent_before, process}
use gosk.Mapper.Expressions.{Environment, coils, timestamps, Engine}
use gosk.Mapper.Registers.{
  numbered, same_time, as_registers, as_timestamps, put_registers, on_registers, on_frame,
}
use gosk.Message.RawMessage.{Raw}
use gosk.Mapper.Modbus.{ModbusMapper, answer, finish, map_frame, read_raw, map_raw}

module _ {w : Foreign} where
  abbrev pub IsEnvSafe : Environment w → Type 0
  IsEnvSafe env =
      (as_registers (lookup "registers" env) ≡ none)
      ⊎ ((old : List (ℕ × Time)) × (as_timestamps (lookup "timestamps" env) ≡ some old))

  -- A step that ends in a safe environment.
  abbrev GoesWell : Outcome MapError (Environment w) → Type 0
  GoesWell (ok env) = IsEnvSafe env
  GoesWell _ = ⊥

  lookup-put_registers :
      (now : Time) (address : ℕ) (values : List ℕ) (changes times : List (ℕ × ℤ))
      (env : Environment w)
      → lookup "timestamps" (put_registers now address values changes times env)
        ≡ some (timestamps (numbered address (same_time now values)))
  lookup-put_registers now address values changes times env = rw (lookup-insert, lookup-insert) refl

  put_registers-IsEnvSafe :
      (now : Time) (address : ℕ) (values : List ℕ) (changes times : List (ℕ × ℤ))
      (env : Environment w)
      → IsEnvSafe (put_registers now address values changes times env)
  put_registers-IsEnvSafe now address values changes times env = inr (
    numbered address (same_time now values),
    ap as_timestamps (lookup-put_registers now address values changes times env),
  )

  on_registers-GoesWell :
      (now : Time) (address : ℕ) (values : List ℕ) (env : Environment w)
      → IsEnvSafe env
      → GoesWell (on_registers now address values env)
  unfolding on_registers
  on_registers-GoesWell now address values env (inl fresh) =
      rw (on_registers, fresh) (put_registers-IsEnvSafe now address values _ _ env)
  on_registers-GoesWell now address values env (inr (old, known)) =
      elim (Option-cases (as_registers (lookup "registers" env))) [
        | inl fresh ↦ rw (on_registers, fresh) (put_registers-IsEnvSafe now address values _ _ env)
        | inr (previous, e) ↦
            rw (on_registers, e, known) (put_registers-IsEnvSafe now address values _ _ env)
      ]

  put_coils-IsEnvSafe :
      (m : List (ℕ × Bool)) (env : Environment w)
      → IsEnvSafe env
      → IsEnvSafe (insert "coils" (coils m) env)
  put_coils-IsEnvSafe m env (inl fresh) =
      inl (ap as_registers (lookup-insert "coils" "registers" (coils m) env) ∙ fresh)
  put_coils-IsEnvSafe m env (inr (old, known)) =
      inr (old, ap as_timestamps (lookup-insert "coils" "timestamps" (coils m) env) ∙ known)

  on_frame-GoesWell :
      (now : Time) (function_code address : ℕ) (values : List ℕ) (env : Environment w)
      → IsEnvSafe env
      → GoesWell (on_frame now function_code address values env)
  unfolding on_frame
  on_frame-GoesWell now function_code address values env safe =
      elim (Bool-cases (
        function_code == FunctionCode.read_coils
        || function_code == FunctionCode.read_discrete_inputs)) [
          | inl c ↦ rw c (put_coils-IsEnvSafe _ env safe)
          | inr c ↦
              elim (Bool-cases (
                function_code == FunctionCode.read_holding_registers
                || function_code == FunctionCode.read_input_registers)) [
                  | inl r ↦ rw (c, r) (on_registers-GoesWell now address values env safe)
                  | inr r ↦ rw (c, r) safe
                ]
        ]

  module _ (e : Engine w) where
    answer-ne-panic : (m : ModbusMapper w) (r : Raw) (u : Update w) → answer e m r u ≢ panic
    answer-ne-panic m r u h = ground (arith, h)

    finish-IsEnvSafe :
        (m : ModbusMapper w) (r : Raw) (got : ModbusHeader) (o : Outcome MapError (Environment w))
        → GoesWell o
        → ((finish e m r got o).0 ≢ panic) × IsEnvSafe (finish e m r got o).1.env
    finish-IsEnvSafe m r got (ok env) safe = (answer-ne-panic m r _, safe)
    finish-IsEnvSafe m r got (err x) h = absurd h
    finish-IsEnvSafe m r got panic h = absurd h

    map_raw-IsEnvSafe :
        (m : ModbusMapper w) (r : Raw)
        → IsEnvSafe m.env
        → ((map_raw e m r).0 ≢ panic) × IsEnvSafe (map_raw e m r).1.env
    unfolding map_raw map_frame
    map_raw-IsEnvSafe m r safe = elim (Option-cases (read_raw r.value)) [
      | inl short ↦ rw (short, map_raw) (λ h. cc, safe)
      | inr ((got, values), e') ↦
          rw (e', map_raw)
            (finish-IsEnvSafe m r got _
              (on_frame-GoesWell r.timestamp got.function_code got.address values m.env safe))
    ]

    -- Whether a loop ends in a mapper with a safe environment.
    abbrev Survives : List (Mapped w) × Option (ModbusMapper w) → Type 0
    Survives (sent, end) = (m : ModbusMapper w) × (end ≡ some m) × IsEnvSafe m.env

    sent_before-Survives :
        (out : Outcome MapError (Mapped w)) (later : List (Mapped w) × Option (ModbusMapper w))
        → out ≢ panic
        → Survives later
        → Survives (sent_before out later)
    sent_before-Survives (ok m) later np h = h
    sent_before-Survives (err x) later np h = h
    sent_before-Survives panic later np h = absurd (np refl)

    -- A mapper whose environment has no registers without timestamps, as a new one, maps every
    -- sequence of messages without a panic, and keeps its environment so.
    pub process-IsEnvSafe :
        (m : ModbusMapper w) (raws : List Raw)
        → IsEnvSafe m.env
        → (m' : ModbusMapper w) × ((process (map_raw e) m raws).1 ≡ some m') × IsEnvSafe m'.env
    unfolding process
    process-IsEnvSafe m [] safe = (m, refl, safe)
    process-IsEnvSafe m (r ∷ rest) safe =
        let (np, kept) = map_raw-IsEnvSafe m r safe in
        sent_before-Survives (map_raw e m r).0 _ np (process-IsEnvSafe (map_raw e m r).1 rest kept)
