-- ===== src/Modbus/RoundTrip.antt =====
-- The codecs of protocol/modbus.go are inverse to each other, and say exactly when they fail.
use gosk.Prelude.{
  ℕ, ◌*◌, ◌/◌, ◌%◌, ◌≡◌, refl, ap, ◌∙◌, ◌↔◌, Bool, true, false, List, [], ◌∷◌, length, All, ok, err,
  arith,
}
use gosk.Modbus.Codec.{
  ModbusHeader, odd_number_of_bytes, IsByte, IsUint16, IsHeader, put_uint16, uint16, coils_to_bytes,
  registers_to_bytes, register_pairs, bytes_to_registers, registers_to_coils, coils_to_registers,
  bytes_to_coils, inject_modbus_header, extract_modbus_header,
}

pub uint16-put : (v : ℕ) → IsUint16 v → uint16 (v / 256 % 256) (v % 256) ≡ v
unfolding uint16
uint16-put v h = omega arith

pub put-uint16 : (hi lo : ℕ) → IsByte hi → IsByte lo → put_uint16 (uint16 hi lo) ≡ hi ∷ lo ∷ []
unfolding put_uint16 uint16
put-uint16 hi lo p q = ground arith

pub length-registers_to_bytes :
    (values : List ℕ) → length (registers_to_bytes values) ≡ 2 * length values
unfolding registers_to_bytes put_uint16
length-registers_to_bytes [] = omega arith
length-registers_to_bytes (v ∷ values) = omega (arith, length-registers_to_bytes values)

pub length-coils_to_bytes :
    (values : List Bool) → length (coils_to_bytes values) ≡ 2 * length values
unfolding coils_to_bytes
length-coils_to_bytes [] = omega arith
length-coils_to_bytes (true ∷ values) = omega (arith, length-coils_to_bytes values)
length-coils_to_bytes (false ∷ values) = omega (arith, length-coils_to_bytes values)

-- On an even number of bytes the length test passes.
pub bytes_to_registers_even :
    (bytes : List ℕ) (n : ℕ)
    → length bytes ≡ 2 * n
    → bytes_to_registers bytes ≡ ok (register_pairs bytes)
unfolding bytes_to_registers
bytes_to_registers_even bytes n h = ground arith

pairs-registers :
    (values : List ℕ) → All IsUint16 values → register_pairs (registers_to_bytes values) ≡ values
unfolding register_pairs registers_to_bytes put_uint16
pairs-registers [] h = refl
pairs-registers (v ∷ values) h = ground (arith, uint16-put v, pairs-registers values)

-- Every list of uint16 registers is read back from the bytes it was written to.
pub bytes_to_registers-registers_to_bytes :
    (values : List ℕ)
    → All IsUint16 values
    → bytes_to_registers (registers_to_bytes values) ≡ ok values
bytes_to_registers-registers_to_bytes values h =
    bytes_to_registers_even (registers_to_bytes values) (length values)
      (length-registers_to_bytes values)
    ∙ ap ok (pairs-registers values h)

registers-pairs :
    (bytes : List ℕ)
    → All IsByte bytes
    → length bytes % 2 ≡ 0
    → registers_to_bytes (register_pairs bytes) ≡ bytes
unfolding register_pairs registers_to_bytes
registers-pairs [] h e = refl
registers-pairs (hi ∷ []) h e = absurd (omega arith)
registers-pairs (hi ∷ lo ∷ bytes) h e =
    rw (put-uint16 hi lo h.0 h.1.0, registers-pairs bytes h.1.1 (omega arith))

bytes_to_registers_inv :
    (bytes values : List ℕ)
    → bytes_to_registers bytes ≡ ok values
    → (length bytes % 2 ≡ 0) × (values ≡ register_pairs bytes)
unfolding bytes_to_registers
bytes_to_registers_inv bytes values e = ground arith

-- What was read from bytes is written back to the same bytes.
pub registers_to_bytes-bytes_to_registers :
    (bytes values : List ℕ)
    → All IsByte bytes
    → bytes_to_registers bytes ≡ ok values
    → registers_to_bytes values ≡ bytes
registers_to_bytes-bytes_to_registers bytes values h e =
    let (even, same) = bytes_to_registers_inv bytes values e in
    rw same (registers-pairs bytes h even)

-- `BytesToRegisters` fails exactly on an odd number of bytes, and reports that number.
pub bytes_to_registers-odd_iff :
    (bytes : List ℕ)
    → (bytes_to_registers bytes ≡ err (odd_number_of_bytes (length bytes))) ↔ (length bytes % 2 ≡ 1)
unfolding bytes_to_registers
bytes_to_registers-odd_iff bytes = ground arith

pairs-coils :
    (values : List Bool) → registers_to_coils (register_pairs (coils_to_bytes values)) ≡ values
unfolding register_pairs coils_to_bytes registers_to_coils uint16
pairs-coils [] = refl
pairs-coils (true ∷ values) = ap (◌∷◌ true) (pairs-coils values)
pairs-coils (false ∷ values) = ap (◌∷◌ false) (pairs-coils values)

-- Coils survive the wire format.
pub bytes_to_coils-coils_to_bytes :
    (values : List Bool) → bytes_to_coils (coils_to_bytes values) ≡ ok values
unfolding bytes_to_coils
bytes_to_coils-coils_to_bytes values =
    rw
      (bytes_to_registers_even _ (length values) (length-coils_to_bytes values), pairs-coils values)

-- The two ways from coils to bytes agree.
pub registers_to_bytes-coils_to_registers :
    (values : List Bool) → registers_to_bytes (coils_to_registers values) ≡ coils_to_bytes values
unfolding registers_to_bytes coils_to_registers coils_to_bytes put_uint16
registers_to_bytes-coils_to_registers [] = refl
registers_to_bytes-coils_to_registers (true ∷ values) =
    ap (λ l. 0xff ∷ 0x00 ∷ l) (registers_to_bytes-coils_to_registers values)
registers_to_bytes-coils_to_registers (false ∷ values) =
    ap (λ l. 0x00 ∷ 0x00 ∷ l) (registers_to_bytes-coils_to_registers values)

-- A header and the bytes behind it are read back from the frame that carries them.
pub extract-inject :
    (header : ModbusHeader) (bytes : List ℕ)
    → IsHeader header
    → extract_modbus_header (inject_modbus_header header bytes) ≡ ok (header, bytes)
unfolding extract_modbus_header inject_modbus_header
extract-inject header bytes h = ground (
  arith,
  uint16-put header.function_code,
  uint16-put header.address,
  uint16-put header.number_of_coils_or_registers,
)

frame_lem :
    (b0 b1 b2 b3 b4 b5 b6 : ℕ) (rest : List ℕ)
    → IsByte b1
    → IsByte b2
    → IsByte b3
    → IsByte b4
    → IsByte b5
    → IsByte b6
    → inject_modbus_header
        (record {
          slave = b0;
          function_code = uint16 b1 b2;
          address = uint16 b3 b4;
          number_of_coils_or_registers = uint16 b5 b6;
        })
        rest
      ≡ b0 ∷ b1 ∷ b2 ∷ b3 ∷ b4 ∷ b5 ∷ b6 ∷ rest
unfolding inject_modbus_header uint16
frame_lem b0 b1 b2 b3 b4 b5 b6 rest h1 h2 h3 h4 h5 h6 = ground arith

-- A frame that parses is the one that its header and payload are written to.
pub inject-extract :
    (frame : List ℕ) (header : ModbusHeader) (bytes : List ℕ)
    → All IsByte frame
    → extract_modbus_header frame ≡ ok (header, bytes)
    → inject_modbus_header header bytes ≡ frame
unfolding extract_modbus_header
inject-extract (b0 ∷ b1 ∷ b2 ∷ b3 ∷ b4 ∷ b5 ∷ b6 ∷ rest) header bytes
      (h0, (h1, (h2, (h3, (h4, (h5, (h6, h))))))) e =
    cc (e, frame_lem b0 b1 b2 b3 b4 b5 b6 rest h1 h2 h3 h4 h5 h6)
inject-extract _ header bytes h e = cc
