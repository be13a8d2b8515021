-- ===== src/Modbus/Client.antt =====
-- protocol/modbus.go, `ModbusClient`. The device behind `realClient` is code of another package: a
-- record of operations on a state of its own. The lock makes each call one step.
use gosk.Prelude.{
  ℕ, List, [], ◌∷◌, Bool, ◌==◌, length, if◌then◌else◌, ◌⊎◌, inl, inr, Outcome, ok, err, panic,
}
use gosk.Modbus.FunctionCode
use gosk.Modbus.Codec.{
  ModbusHeader, FrameError, coils_to_bytes, registers_to_bytes, bytes_to_registers, bytes_to_coils,
  inject_modbus_header, extract_modbus_header,
}

pub data RegisterType : Type 0 where
  holding_register input_register : RegisterType

-- `modbus.ModbusClient` of github.com/simonvetter/modbus.
pub record Device : Type 1 where
  pub State : Type 0
  pub Failure : Type 0
  pub set_unit_id : ℕ → State → State
  pub read_coils : ℕ → ℕ → State → (Failure ⊎ List Bool) × State
  pub read_discrete_inputs : ℕ → ℕ → State → (Failure ⊎ List Bool) × State
  pub read_registers : RegisterType → ℕ → ℕ → State → (Failure ⊎ List ℕ) × State
  pub write_coil : ℕ → Bool → State → (Failure ⊎ Unit {0}) × State
  pub write_register : ℕ → ℕ → State → (Failure ⊎ Unit {0}) × State
  pub write_coils : ℕ → List Bool → State → (Failure ⊎ Unit {0}) × State
  pub write_registers : ℕ → List ℕ → State → (Failure ⊎ Unit {0}) × State

pub data ReadError (F : Type 0) : Type 0 where
  read_failed : ModbusHeader → F → ReadError F
  unsupported_read : ℕ → ReadError F

pub data WriteError : Type 0 where
  bad_frame : FrameError → WriteError
  expected_one : ℕ → WriteError
  expected_registers : ℕ → ℕ → WriteError
  unsupported_write : ℕ → WriteError

module _ (device : Device) where
  open device use {
    State, Failure, set_unit_id, read_coils, read_discrete_inputs, read_registers, write_coil,
    write_register, write_coils, write_registers,
  }

  -- A reply of the device becomes a frame, or the error that wraps the device's.
  abbrev pub framed :
      {A : Type 0}
      → ModbusHeader
      → (A → List ℕ)
      → (Failure ⊎ A) × State
      → Outcome (ReadError Failure) (List ℕ) × State
  framed header encode (inl failure, s) = (err (read_failed header failure), s)
  framed header encode (inr values, s) = (ok (inject_modbus_header header (encode values)), s)

  -- The switch of `Read`: the frame that it appends to the caller's buffer.
  unfoldable pub read_frame : ModbusHeader → State → Outcome (ReadError Failure) (List ℕ) × State
  read_frame header s =
      let s' = set_unit_id header.slave s in
      let number = header.number_of_coils_or_registers in
      if header.function_code == FunctionCode.read_coils
      then framed header coils_to_bytes (read_coils header.address number s')
      else if header.function_code == FunctionCode.read_discrete_inputs
      then framed header coils_to_bytes (read_discrete_inputs header.address number s')
      else if header.function_code == FunctionCode.read_holding_registers
      then framed header registers_to_bytes
          (read_registers holding_register header.address number s')
      else if header.function_code == FunctionCode.read_input_registers
      then framed header registers_to_bytes (read_registers input_register header.address number s')
      else (err (unsupported_read header.function_code), s')

  abbrev pub write_single_coil : ModbusHeader → List ℕ → State → Outcome WriteError ℕ × State
  write_single_coil header bytes s =
      if header.number_of_coils_or_registers == 1
      then elim (bytes_to_coils bytes) [
        | ok coils ↦ elim coils [
          | [] ↦ (panic, s)
          | coil ∷ _ ↦ (ok (length bytes), (write_coil header.address coil s).1)
        ]
        | err e ↦ (err (bad_frame e), s)
        | panic ↦ (panic, s)
      ]
      else (err (expected_one header.number_of_coils_or_registers), s)

  -- The test of the number of registers, which both register writes make.
  abbrev pub checked_registers : ModbusHeader → List ℕ → Outcome WriteError (List ℕ)
  checked_registers header bytes = elim (bytes_to_registers bytes) [
    | ok registers ↦
        if length registers == header.number_of_coils_or_registers
        then ok registers
        else err (expected_registers header.number_of_coils_or_registers (length registers))
    | err e ↦ err (bad_frame e)
    | panic ↦ panic
  ]

  abbrev pub write_single_register : ModbusHeader → List ℕ → State → Outcome WriteError ℕ × State
  write_single_register header bytes s =
      if header.number_of_coils_or_registers == 1
      then elim (checked_registers header bytes) [
        | ok registers ↦ elim registers [
          | [] ↦ (panic, s)
          | register ∷ _ ↦ (ok (length bytes), (write_register header.address register s).1)
        ]
        | err e ↦ (err e, s)
        | panic ↦ (panic, s)
      ]
      else (err (expected_one header.number_of_coils_or_registers), s)

  abbrev pub write_multiple_coils : ModbusHeader → List ℕ → State → Outcome WriteError ℕ × State
  write_multiple_coils header bytes s = elim (bytes_to_coils bytes) [
    | ok coils ↦ (ok (length bytes), (write_coils header.address coils s).1)
    | err e ↦ (err (bad_frame e), s)
    | panic ↦ (panic, s)
  ]

  abbrev pub write_multiple_registers : ModbusHeader → List ℕ → State → Outcome WriteError ℕ × State
  write_multiple_registers header bytes s = elim (checked_registers header bytes) [
    | ok registers ↦ (ok (length bytes), (write_registers header.address registers s).1)
    | err e ↦ (err e, s)
    | panic ↦ (panic, s)
  ]

  -- The switch of `Write`, on the header and the bytes behind it. What the device answers to a
  -- write is dropped, as in the source.
  unfoldable pub write_payload : ModbusHeader → List ℕ → State → Outcome WriteError ℕ × State
  write_payload header bytes s =
      let s' = set_unit_id header.slave s in
      if header.function_code == FunctionCode.write_single_coil
      then write_single_coil header bytes s'
      else if header.function_code == FunctionCode.write_single_register
      then write_single_register header bytes s'
      else if header.function_code == FunctionCode.write_multiple_coils
      then write_multiple_coils header bytes s'
      else if header.function_code == FunctionCode.write_multiple_registers
      then write_multiple_registers header bytes s'
      else (err (unsupported_write header.function_code), s')

  unfoldable pub write : List ℕ → State → Outcome WriteError ℕ × State
  write bytes s = elim (extract_modbus_header bytes) [
    | ok (header, payload) ↦ write_payload header payload s
    | err e ↦ (err (bad_frame e), s)
    | panic ↦ (panic, s)
  ]
