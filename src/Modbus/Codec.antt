-- ===== src/Modbus/Codec.antt =====
-- protocol/modbus.go, the frame format: a header of seven bytes, then two bytes for each register
-- or coil, all big endian. A `uint8` or `uint16` is a plain number whose range is a hypothesis.
use gosk.Prelude.{
  ℕ, ◌+◌, ◌*◌, ◌/◌, ◌%◌, ◌<◌, Bool, true, false, List, [], ◌∷◌, ◌++◌, map, length, ◌==◌,
  if◌then◌else◌, Outcome, ok, err, ◌>>=◌,
}

abbrev pub modbus_header_length : ℕ
modbus_header_length = 7

pub record ModbusHeader : Type 0 where
  pub slave : ℕ
  pub function_code : ℕ
  pub address : ℕ
  pub number_of_coils_or_registers : ℕ

-- What `fmt.Errorf` reports, with the number that the message names.
pub data FrameError : Type 0 where
  odd_number_of_bytes : ℕ → FrameError
  header_too_short : ℕ → FrameError

abbrev pub IsByte : ℕ → Type 0
IsByte b = b < 256

abbrev pub IsUint16 : ℕ → Type 0
IsUint16 v = v < 65536

-- The header's fields fit their Go types.
pub record IsHeader (h : ModbusHeader) : Type 0 where
  pub slave_fits : IsByte h.slave
  pub function_code_fits : IsUint16 h.function_code
  pub address_fits : IsUint16 h.address
  pub number_fits : IsUint16 h.number_of_coils_or_registers

-- `binary.BigEndian.PutUint16` into two bytes, and `binary.BigEndian.Uint16` of two bytes.
unfoldable pub put_uint16 : ℕ → List ℕ
put_uint16 v = (v / 256 % 256) ∷ (v % 256) ∷ []

unfoldable pub uint16 : ℕ → ℕ → ℕ
uint16 hi lo = hi * 256 + lo

unfoldable pub coils_to_bytes : List Bool → List ℕ
coils_to_bytes [] = []
coils_to_bytes (true ∷ values) = 0xff ∷ 0x00 ∷ coils_to_bytes values
coils_to_bytes (false ∷ values) = 0x00 ∷ 0x00 ∷ coils_to_bytes values

unfoldable pub registers_to_bytes : List ℕ → List ℕ
registers_to_bytes [] = []
registers_to_bytes (v ∷ values) = put_uint16 v ++ registers_to_bytes values

-- The loop of `BytesToRegisters`: one register for each pair of bytes.
unfoldable pub register_pairs : List ℕ → List ℕ
register_pairs (hi ∷ lo ∷ bytes) = uint16 hi lo ∷ register_pairs bytes
register_pairs _ = []

unfoldable pub bytes_to_registers : List ℕ → Outcome FrameError (List ℕ)
bytes_to_registers bytes =
    if length bytes % 2 == 0
    then ok (register_pairs bytes)
    else err (odd_number_of_bytes (length bytes))

unfoldable pub registers_to_coils : List ℕ → List Bool
registers_to_coils = map (λ r. r == 0xff00)

unfoldable pub coils_to_registers : List Bool → List ℕ
coils_to_registers = map (λ c. if c then 0xff00 else 0)

unfoldable pub bytes_to_coils : List ℕ → Outcome FrameError (List Bool)
bytes_to_coils bytes = do registers ← bytes_to_registers bytes; ok (registers_to_coils registers)

unfoldable pub header_bytes : ModbusHeader → List ℕ
header_bytes h =
    h.slave ∷ put_uint16 h.function_code
    ++ put_uint16 h.address
    ++ put_uint16 h.number_of_coils_or_registers

unfoldable pub inject_modbus_header : ModbusHeader → List ℕ → List ℕ
unfolding header_bytes put_uint16
inject_modbus_header header bytes = header_bytes header ++ bytes

unfoldable pub extract_modbus_header : List ℕ → Outcome FrameError (ModbusHeader × List ℕ)
extract_modbus_header (b0 ∷ b1 ∷ b2 ∷ b3 ∷ b4 ∷ b5 ∷ b6 ∷ bytes) = ok (
  record {
    slave = b0;
    function_code = uint16 b1 b2;
    address = uint16 b3 b4;
    number_of_coils_or_registers = uint16 b5 b6;
  },
  bytes,
)
extract_modbus_header bytes = err (header_too_short (length bytes))
