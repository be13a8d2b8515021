-- ===== src/Mapper/CanSignal.antt =====
-- mapper/canbus.go, `extractSignal`: the bits of a signal in the data of a CAN frame, as a number.
use gosk.Prelude.{
  ℕ, ◌+◌, ◌-◌, ◌*◌, ◌/◌, ◌%◌, ◌^◌, Bool, true, false, ltb, String, List, [], ◌∷◌, if◌then◌else◌,
}
use gosk.Prelude.Int.{ℤ, pos, negsuc}
use gosk.Message.Values.{Foreign}

-- The fields of `dbc.SignalDef` that the code reads. The first two numbers are `uint64`.
pub record SignalDef (w : Foreign) : Type 0 where
  pub name : String
  pub start_bit : ℕ
  pub size : ℕ
  pub is_big_endian : Bool
  pub is_signed : Bool
  pub factor : w.Float
  pub offset : w.Float

pub record Signal (w : Foreign) : Type 0 where
  pub origin : String
  pub name : String
  pub value : w.Float

-- `float64(i)`, and `val * factor + offset` on floats.
pub record Arithmetic (w : Foreign) : Type 0 where
  pub to_float : ℤ → w.Float
  pub scale : w.Float → w.Float → w.Float → w.Float

abbrev pub two_64 : ℕ
two_64 = 18446744073709551616

-- `x << n` and `x >> n` on `uint64`.
abbrev pub shift_left : ℕ → ℕ → ℕ
shift_left x n = elim (ltb n 64) [ true ↦ x * 2 ^ n % two_64 | false ↦ 0 ]

abbrev pub shift_right : ℕ → ℕ → ℕ
shift_right x n = elim (ltb n 64) [ true ↦ x / 2 ^ n | false ↦ 0 ]

-- `a - b` on `uint64`.
abbrev pub sub_uint64 : ℕ → ℕ → ℕ
sub_uint64 a b = (a + two_64 - b) % two_64

-- `int64(x)` of a `uint64`.
abbrev pub to_int64 : ℕ → ℤ
to_int64 x = if ltb x 9223372036854775808 then pos x else negsuc (two_64 - 1 - x)

-- `binary.BigEndian.Uint64` on the eight bytes of a frame.
abbrev pub uint64_from : ℕ → List ℕ → ℕ
uint64_from front [] = front
uint64_from front (b ∷ bytes) = uint64_from (front * 256 + b) bytes

unfoldable pub uint64 : List ℕ → ℕ
uint64 = uint64_from 0

-- The lines on `start`, `length` and `temp`.
unfoldable pub bits_of : Bool → ℕ → ℕ → ℕ → ℕ
bits_of is_big_endian start size bytes =
    shift_right (shift_left bytes (if is_big_endian then sub_uint64 start 7 else start))
      (sub_uint64 64 size)

module _ {w : Foreign} (floats : Arithmetic w) where
  unfoldable pub value_of_signal : SignalDef w → List ℕ → w.Float
  unfolding bits_of
  value_of_signal mapping bytes =
      let temp = bits_of mapping.is_big_endian mapping.start_bit mapping.size (uint64 bytes) in
      let val =
        if mapping.is_signed then floats.to_float (to_int64 temp) else floats.to_float (pos temp) in
      floats.scale val mapping.factor mapping.offset

  unfoldable pub extract_signal : SignalDef w → String → List ℕ → Signal w
  unfolding value_of_signal
  extract_signal mapping origin bytes = record {
    origin = origin;
    name = mapping.name;
    value = value_of_signal mapping bytes;
  }
