-- ===== src/Message/Decoding.antt =====
-- message/mapped_update_value_types.go, `Decode`. `mapstructure.DecodeMetadata` is code of another
-- package: for each struct type, what it makes of an input, or `none` for its error, with the
-- number of keys that it left unused.
use gosk.Prelude.{ℕ, ◌==◌, Option, none, some, if◌then◌else◌, Outcome, ok, err}
use gosk.Message.Values.{
  Foreign, VesselInfo, Position, Length, Alarm, Draft, GoValue, int64, float64, text, vessel_info,
  position, length_value, alarm, draft,
}

pub record Mapstructure (w : Foreign) : Type 0 where
  pub decode_position : GoValue w → Option (Position w × ℕ)
  pub decode_vessel_info : GoValue w → Option (VesselInfo × ℕ)
  pub decode_length : GoValue w → Option (Length w × ℕ)
  pub decode_alarm : GoValue w → Option (Alarm × ℕ)
  pub decode_draft : GoValue w → Option (Draft w × ℕ)

pub data DecodeError (w : Foreign) : Type 0 where
  cannot_decode : GoValue w → DecodeError w

-- The test `err == nil && len(metadata.Unused) == 0`.
abbrev pub fitted : {A : Type 0} → Option (A × ℕ) → Option A
fitted none = none
fitted (some (a, unused)) = if unused == 0 then some a else none

module _ {w : Foreign} (m : Mapstructure w) where
  -- The struct types, tried in the order of the source.
  unfoldable pub decode_struct : GoValue w → Outcome (DecodeError w) (GoValue w)
  decode_struct input = elim (fitted (m.decode_position input)) [
    | some p ↦ ok (position p)
    | none ↦ elim (fitted (m.decode_vessel_info input)) [
      | some v ↦ ok (vessel_info v)
      | none ↦ elim (fitted (m.decode_length input)) [
        | some l ↦ ok (length_value l)
        | none ↦ elim (fitted (m.decode_alarm input)) [
          | some a ↦ ok (alarm a)
          | none ↦ elim (fitted (m.decode_draft input)) [
            | some d ↦ ok (draft d)
            | none ↦ err (cannot_decode input)
          ]
        ]
      ]
    ]
  ]

  unfoldable pub decode : GoValue w → Outcome (DecodeError w) (GoValue w)
  decode (int64 i) = ok (int64 i)
  decode (float64 f) = ok (float64 f)
  decode (text s) = ok (text s)
  decode input = decode_struct input
