-- ===== src/Mapper/CanBits.antt =====
-- The bits that `extractSignal` of mapper/canbus.go takes. They are those of the signal only if it is
-- big endian and starts at the highest bit of a byte.
use gosk.Prelude.{
  ℕ, ◌+◌, ◌-◌, ◌*◌, ◌/◌, ◌%◌, ◌^◌, ◌<◌, ◌≤◌, ◌≡◌, ap, ◌∙◌, Bool, true, false, lt→ltb, Bool-cases,
  inl, inr, arith, if◌then◌else◌, List, String,
}
use gosk.Prelude.Int.{pos}
use gosk.Prelude.Division.{pow-add, mul-pos, mul-mod-mul, mod-mul-div}
use native.Mathlib.Nat.{one-le-pow, mul-div-mul_left, mod-lt, zero-div, pow-le-pow_right}
use gosk.Message.Values.{Foreign}
use gosk.Mapper.CanSignal.{
  SignalDef, Arithmetic, two_64, shift_left, shift_right, sub_uint64, to_int64, bits_of,
  value_of_signal, extract_signal, uint64,
}

two-pos : 0 < 2
two-pos = omega arith

two-pow-pos : (n : ℕ) → 0 < 2 ^ n
two-pow-pos n = omega (arith, one-le-pow n 2 (omega arith))

sub_uint64-le : (a b : ℕ) → b ≤ a → a < two_64 → sub_uint64 a b ≡ a - b
sub_uint64-le a b le h = omega arith

module _ (start size : ℕ) (fits : start + size ≤ 64) where
  abbrev dropped : ℕ
  dropped = 2 ^ start

  abbrev behind : ℕ
  behind = 2 ^ (64 - start - size)

  abbrev kept : ℕ
  kept = 2 ^ size

  word : two_64 ≡ dropped * (behind * kept)
  word =
      ap (λ (n : ℕ). 2 ^ n) whole
      ∙ pow-add 2 start (64 - start - size + size)
      ∙ ap (λ (n : ℕ). dropped * n) (pow-add 2 (64 - start - size) size)
    where
      whole : 64 ≡ start + (64 - start - size + size)
      whole = omega arith

  shifted : 2 ^ (64 - size) ≡ dropped * behind
  shifted = ap (λ (n : ℕ). 2 ^ n) whole ∙ pow-add 2 start (64 - start - size)
    where
      whole : 64 - size ≡ start + (64 - start - size)
      whole = omega arith

  quotient : (x : ℕ) → x * dropped % two_64 / 2 ^ (64 - size) ≡ x / behind % kept
  quotient x =
      ap (λ (n : ℕ). x * dropped % two_64 / n) shifted
      ∙ ap (λ (n : ℕ). x * dropped % n / (dropped * behind)) word
      ∙ ap (λ (n : ℕ). n % (dropped * (behind * kept)) / (dropped * behind)) (omega arith)
      ∙ ap (λ (n : ℕ). n / (dropped * behind))
          (mul-mod-mul dropped x (behind * kept) (two-pow-pos start)
            (mul-pos behind kept (two-pow-pos (64 - start - size)) (two-pow-pos size)))
      ∙ mul-div-mul_left (x % (behind * kept)) behind (two-pow-pos start)
      ∙ mod-mul-div x behind kept (two-pow-pos (64 - start - size)) (two-pow-pos size)

  -- A shift to the left that drops `start` bits, and one to the right that leaves `size` bits.
  pub shift-bits :
      1 ≤ size
      → (x : ℕ)
      → shift_right (shift_left x start) (64 - size) ≡ x / 2 ^ (64 - start - size) % 2 ^ size
  shift-bits positive x =
      rw (shift_left, lt→ltb start 64 (omega arith))
        (rw (shift_right, lt→ltb (64 - size) 64 (omega arith)) (quotient x))

-- Where the code starts to read: a signal that is big endian is taken to start seven bits earlier.
abbrev pub first_bit : Bool → ℕ → ℕ
first_bit true start = start - 7
first_bit false start = start

-- If the signal has a bit, lies in the word, and does not start in the first seven bits if it is big
-- endian, what is taken is a quotient of the word.
pub bits_of-quotient :
    (is_big_endian : Bool) (start size x : ℕ)
    → (if is_big_endian then 7 else 0) ≤ start
    → 1 ≤ size
    → first_bit is_big_endian start + size ≤ 64
    → bits_of is_big_endian start size x
      ≡ x / 2 ^ (64 - first_bit is_big_endian start - size) % 2 ^ size
unfolding bits_of
bits_of-quotient true start size x low positive fits =
    ap (λ (n : ℕ). shift_right (shift_left x n) (sub_uint64 64 size))
      (sub_uint64-le start 7 low (omega arith))
    ∙ ap (λ (n : ℕ). shift_right (shift_left x (start - 7)) n)
        (sub_uint64-le 64 size (omega arith) (omega arith))
    ∙ shift-bits (start - 7) size fits positive x
bits_of-quotient false start size x low positive fits =
    ap (λ (n : ℕ). shift_right (shift_left x start) n)
      (sub_uint64-le 64 size (omega arith) (omega arith))
    ∙ shift-bits start size fits positive x

shift_left-long : (x n : ℕ) → 64 ≤ n → shift_left x n ≡ 0
shift_left-long x n long = ground arith

shift_right-zero : (n : ℕ) → shift_right 0 n ≡ 0
shift_right-zero n = ground (arith, zero-div (2 ^ n))

-- A signal that is big endian and starts in the first seven bits is zero.
pub bits_of-zero : (start size x : ℕ) → start < 7 → bits_of true start size x ≡ 0
unfolding bits_of
bits_of-zero start size x low =
    ap (λ (n : ℕ). shift_right n (sub_uint64 64 size))
      (shift_left-long x (sub_uint64 start 7) (omega arith))
    ∙ shift_right-zero (sub_uint64 64 size)

module _ {w : Foreign} (floats : Arithmetic w) where
  -- The number that `size` binary digits make, behind those before the start, of the eight bytes as one
  -- big endian number.
  abbrev pub unsigned_bits : SignalDef w → List ℕ → ℕ
  unsigned_bits s bytes =
      uint64 bytes / 2 ^ (64 - first_bit s.is_big_endian s.start_bit - s.size) % 2 ^ s.size

  to_int64-small : (x size : ℕ) → size ≤ 63 → to_int64 (x % 2 ^ size) ≡ pos (x % 2 ^ size)
  to_int64-small x size small =
      ground (arith, mod-lt x (two-pow-pos size), pow-le-pow_right two-pos small)

  -- For a signal of 1 to 63 bits, where the code starts in the eight bytes at its start bit, or seven
  -- bits before that if it is big endian, if that is not before the first bit, and the size from there
  -- does not go beyond the last: what is scaled is the number that the `size` binary digits from there
  -- on make, of the eight bytes read as one big endian number, whatever the byte order of the signal.
  -- It is never negative, also for a signed signal.
  pub extract_signal-unsigned :
      (s : SignalDef w) (origin : String) (bytes : List ℕ)
      → (if s.is_big_endian then 7 else 0) ≤ s.start_bit
      → 1 ≤ s.size
      → s.size ≤ 63
      → first_bit s.is_big_endian s.start_bit + s.size ≤ 64
      → extract_signal floats s origin bytes ≡ record {
        origin = origin;
        name = s.name;
        value = floats.scale (floats.to_float (pos (unsigned_bits s bytes))) s.factor s.offset;
      }
  unfolding extract_signal value_of_signal
  extract_signal-unsigned s origin bytes low positive small fits =
      ap
        (λ (v : w.Float). record {
          origin = origin;
          name = s.name;
          value = floats.scale v s.factor s.offset;
        })
        (elim (Bool-cases s.is_signed) [
          | inl e ↦ rw e (
              ap (λ (n : ℕ). floats.to_float (to_int64 n)) bits
              ∙ ap floats.to_float (
                  to_int64-small
                    (uint64 bytes / 2 ^ (64 - first_bit s.is_big_endian s.start_bit - s.size))
                    s.size small))
          | inr e ↦ rw e (ap (λ (n : ℕ). floats.to_float (pos n)) bits)
        ])
    where
      bits : bits_of s.is_big_endian s.start_bit s.size (uint64 bytes) ≡ unsigned_bits s bytes
      bits = bits_of-quotient s.is_big_endian s.start_bit s.size (uint64 bytes) low positive fits
