-- ===== src/Modbus/FrameLength.antt =====
-- The length of the frames that `Read` of protocol/modbus.go returns, on a device that answers each
-- request with as many values as it asks for.
use gosk.Prelude.{ℕ, ◌+◌, ◌*◌, ◌≡◌, ◌≢◌, ◌⊎◌, inl, inr, refl, Bool, List, length, ok, panic, arith}
use gosk.Modbus.Codec.{ModbusHeader, coils_to_bytes, registers_to_bytes}
use gosk.Modbus.RoundTrip.{length-registers_to_bytes, length-coils_to_bytes}
use gosk.Modbus.Client.{Device, RegisterType, framed, read_frame}
use gosk.Modbus.Frames.{length-inject}

-- A device that answers at all answers with as many values as it was asked for.
pub record AnswersInFull (device : Device) : Type 0 where
  pub coils :
      (a n : ℕ) (s s' : device.State) (values : List Bool)
      → device.read_coils a n s ≡ (inr values, s')
      → length values ≡ n
  pub discrete_inputs :
      (a n : ℕ) (s s' : device.State) (values : List Bool)
      → device.read_discrete_inputs a n s ≡ (inr values, s')
      → length values ≡ n
  pub registers :
      (kind : RegisterType) (a n : ℕ) (s s' : device.State) (values : List ℕ)
      → device.read_registers kind a n s ≡ (inr values, s')
      → length values ≡ n

abbrev pub frame_length : ModbusHeader → ℕ
frame_length header = 7 + 2 * header.number_of_coils_or_registers

module _ (device : Device) (full : AnswersInFull device) (header : ModbusHeader) where
  open device use {State, Failure, set_unit_id, read_coils, read_discrete_inputs, read_registers}

  abbrev number : ℕ
  number = header.number_of_coils_or_registers

  coils_frame :
      (reply : (Failure ⊎ List Bool) × State) (frame : List ℕ)
      → ((s' : State) (values : List Bool) → reply ≡ (inr values, s') → length values ≡ number)
      → (framed device header coils_to_bytes reply).0 ≡ ok frame
      → length frame ≡ frame_length header
  coils_frame (inl failure, s) frame count h = cc
  coils_frame (inr values, s) frame count h = ground (
    arith,
    count s values refl,
    length-inject header (coils_to_bytes values),
    length-coils_to_bytes values,
  )

  registers_frame :
      (reply : (Failure ⊎ List ℕ) × State) (frame : List ℕ)
      → ((s' : State) (values : List ℕ) → reply ≡ (inr values, s') → length values ≡ number)
      → (framed device header registers_to_bytes reply).0 ≡ ok frame
      → length frame ≡ frame_length header
  registers_frame (inl failure, s) frame count h = cc
  registers_frame (inr values, s) frame count h = ground (
    arith,
    count s values refl,
    length-inject header (registers_to_bytes values),
    length-registers_to_bytes values,
  )

  framed-ne-panic :
      {A : Type 0} (encode : A → List ℕ) (reply : (Failure ⊎ A) × State)
      → (framed device header encode reply).0 ≢ panic
  framed-ne-panic encode (inl failure, s) h = cc
  framed-ne-panic encode (inr values, s) h = cc

  abbrev unit : State → State
  unit s = set_unit_id header.slave s

  -- Every frame that is read has the header's seven bytes and two for each value asked for.
  pub length-read_frame :
      (s : State) (frame : List ℕ)
      → (read_frame device header s).0 ≡ ok frame
      → length frame ≡ frame_length header
  unfolding read_frame
  length-read_frame s frame = ground (
    arith,
    coils_frame (read_coils header.address number (unit s)) frame
        (full.coils header.address number (unit s)),
    coils_frame (read_discrete_inputs header.address number (unit s)) frame
        (full.discrete_inputs header.address number (unit s)),
    registers_frame (read_registers RegisterType.holding_register header.address number (unit s))
        frame (full.registers RegisterType.holding_register header.address number (unit s)),
    registers_frame (read_registers RegisterType.input_register header.address number (unit s))
        frame (full.registers RegisterType.input_register header.address number (unit s)),
  )

  pub read_frame-ne-panic : (s : State) → (read_frame device header s).0 ≢ panic
  unfolding read_frame
  read_frame-ne-panic s = ground (
    arith,
    framed-ne-panic coils_to_bytes (read_coils header.address number (unit s)),
    framed-ne-panic coils_to_bytes (read_discrete_inputs header.address number (unit s)),
    framed-ne-panic registers_to_bytes
        (read_registers RegisterType.holding_register header.address number (unit s)),
    framed-ne-panic registers_to_bytes
        (read_registers RegisterType.input_register header.address number (unit s)),
  )
