-- ===== src/Modbus/Frames.antt =====
-- What `Read` and `Write` of protocol/modbus.go do with a frame, on every branch.
use gosk.Prelude.{
  ℕ, ◌+◌, ◌*◌, ◌≡◌, ◌≢◌, ◌↔◌, ◌⊎◌, inl, inr, refl, ◌∙◌, Bool, List, [], ◌∷◌, length, All, ok, err,
  panic, arith,
}
use gosk.Modbus.FunctionCode
use gosk.Modbus.Codec.{
  ModbusHeader, FrameError, IsUint16, IsHeader, coils_to_bytes, registers_to_bytes, register_pairs,
  bytes_to_registers, registers_to_coils, bytes_to_coils, inject_modbus_header,
  extract_modbus_header,
}
use gosk.Modbus.RoundTrip.{
  extract-inject, bytes_to_registers-registers_to_bytes, bytes_to_coils-coils_to_bytes,
  length-registers_to_bytes, length-coils_to_bytes,
}
use gosk.Modbus.Client.{
  Device, RegisterType, holding_register, input_register, expected_registers, bad_frame, read_frame,
  write_payload, write,
}

pub length-inject :
    (header : ModbusHeader) (bytes : List ℕ)
    → length (inject_modbus_header header bytes) ≡ 7 + length bytes
unfolding inject_modbus_header
length-inject header bytes = omega arith

extract_cases :
    (frame : List ℕ)
    → ((p : ModbusHeader × List ℕ) × (extract_modbus_header frame ≡ ok p))
      ⊎ ((e : FrameError) × (extract_modbus_header frame ≡ err e))
unfolding extract_modbus_header
extract_cases (b0 ∷ b1 ∷ b2 ∷ b3 ∷ b4 ∷ b5 ∷ b6 ∷ rest) = inl (_, refl)
extract_cases _ = inr (_, refl)

-- The frames on which `Write` indexes an empty list of coils.
pub record IsEmptyCoilWrite (header : ModbusHeader) (payload : List ℕ) : Type 0 where
  pub writes_coil : header.function_code ≡ FunctionCode.write_single_coil
  pub one_coil : header.number_of_coils_or_registers ≡ 1
  pub no_data : payload ≡ []

module _ (device : Device) where
  open device use {State, set_unit_id, read_registers, write_coils, write_registers}

  payload-panic :
      (header : ModbusHeader) (payload : List ℕ) (s : State)
      → (write_payload device header payload s).0 ≡ panic
      → IsEmptyCoilWrite header payload
  unfolding write_payload bytes_to_coils bytes_to_registers register_pairs registers_to_coils
  payload-panic header [] s e = ground arith
  payload-panic header (b ∷ []) s e = absurd (ground arith)
  payload-panic header (b ∷ c ∷ payload) s e = absurd (ground arith)

  panic-payload :
      (header : ModbusHeader) (payload : List ℕ) (s : State)
      → IsEmptyCoilWrite header payload
      → (write_payload device header payload s).0 ≡ panic
  unfolding write_payload bytes_to_coils bytes_to_registers register_pairs registers_to_coils
  panic-payload header payload s h = ground arith

  write-parsed :
      (frame : List ℕ) (header : ModbusHeader) (payload : List ℕ) (s : State)
      → extract_modbus_header frame ≡ ok (header, payload)
      → write device frame s ≡ write_payload device header payload s
  unfolding write
  write-parsed frame header payload s e = rw (e, write)

  write-unparsed :
      (frame : List ℕ) (e : FrameError) (s : State)
      → extract_modbus_header frame ≡ err e
      → write device frame s ≡ (err (bad_frame e), s)
  unfolding write
  write-unparsed frame e s h = rw (h, write)

  -- `Write` panics on the frames that parse to a single coil write of one coil with no data behind
  -- the header, and on no others.
  pub write-panic_iff :
      (frame : List ℕ) (s : State)
      → ((write device frame s).0 ≡ panic) ↔ (
          (header : ModbusHeader) × (extract_modbus_header frame ≡ ok (header, []))
          × IsEmptyCoilWrite header [])
  write-panic_iff frame s = (
    λ h. elim (extract_cases frame) [
      | inl ((header, payload), e) ↦
          let bad =
            payload-panic header payload s (rw (write-parsed frame header payload s e) at h) in
          (header, rw (← bad.no_data) e, rw bad.no_data at bad)
      | inr (e, u) ↦ cc (h, write-unparsed frame e s u)
    ],
    λ (header, e, h). rw (write-parsed frame header [] s e) (panic-payload header [] s h),
  )

  failed_payload :
      (header : ModbusHeader) (payload : List ℕ) (s : State)
      → ((n : ℕ) → (write_payload device header payload s).0 ≢ ok n)
      → (write_payload device header payload s).1 ≡ set_unit_id header.slave s
  unfolding write_payload
  failed_payload header payload s h = ground (arith, h (length payload))

  -- A write that does not succeed changes nothing on the device but the unit id, and not even
  -- that if the frame has no header.
  pub write-failed :
      (frame : List ℕ) (s : State)
      → ((n : ℕ) → (write device frame s).0 ≢ ok n)
      → ((write device frame s).1 ≡ s)
        ⊎ ((header : ModbusHeader) × (payload : List ℕ) × (extract_modbus_header frame
              ≡ ok (header, payload))
            × ((write device frame s).1 ≡ set_unit_id header.slave s))
  write-failed frame s h = elim (extract_cases frame) [
    | inl ((header, payload), e) ↦
        let step = write-parsed frame header payload s e in
        inr (header, payload, e, rw step (failed_payload header payload s (rw step at h)))
    | inr (e, u) ↦ inl (rw (write-unparsed frame e s u))
  ]

  -- A frame that carries uint16 registers, as many as its header says, is written to the device
  -- with the header's unit id and address, and the number of data bytes is returned.
  pub write-registers :
      (header : ModbusHeader) (registers : List ℕ) (s : State)
      → IsHeader header
      → All IsUint16 registers
      → header.function_code ≡ FunctionCode.write_multiple_registers
      → header.number_of_coils_or_registers ≡ length registers
      → write device (inject_modbus_header header (registers_to_bytes registers)) s ≡ (
        ok (2 * length registers),
        (write_registers header.address registers (set_unit_id header.slave s)).1,
      )
  unfolding write_payload
  write-registers header registers s h fits code number =
      write-parsed _ header _ s (extract-inject header (registers_to_bytes registers) h)
      ∙ ground (
        arith,
        bytes_to_registers-registers_to_bytes registers fits,
        length-registers_to_bytes registers,
      )

  -- Another number of registers than the header says is refused, and only the unit id is set.
  pub write-registers_mismatch :
      (header : ModbusHeader) (registers : List ℕ) (s : State)
      → IsHeader header
      → All IsUint16 registers
      → header.function_code ≡ FunctionCode.write_multiple_registers
      → header.number_of_coils_or_registers ≢ length registers
      → write device (inject_modbus_header header (registers_to_bytes registers)) s ≡ (
        err (expected_registers header.number_of_coils_or_registers (length registers)),
        set_unit_id header.slave s,
      )
  unfolding write_payload
  write-registers_mismatch header registers s h fits code number =
      write-parsed _ header _ s (extract-inject header (registers_to_bytes registers) h)
      ∙ ground (arith, bytes_to_registers-registers_to_bytes registers fits)

  -- A frame of coils is written whatever number of coils its header says.
  pub write-coils :
      (header : ModbusHeader) (coils : List Bool) (s : State)
      → IsHeader header
      → header.function_code ≡ FunctionCode.write_multiple_coils
      → write device (inject_modbus_header header (coils_to_bytes coils)) s
        ≡ (ok (2 * length coils), (write_coils header.address coils (set_unit_id header.slave s)).1)
  unfolding write_payload
  write-coils header coils s h code =
      write-parsed _ header _ s (extract-inject header (coils_to_bytes coils) h)
      ∙ ground (arith, bytes_to_coils-coils_to_bytes coils, length-coils_to_bytes coils)

  read_frame_switch :
      (header : ModbusHeader) (kind : RegisterType) (registers : List ℕ) (s s' : State)
      → (header.function_code ≡ FunctionCode.read_holding_registers) × (kind ≡ holding_register)
        ⊎ (header.function_code ≡ FunctionCode.read_input_registers) × (kind ≡ input_register)
      → read_registers kind header.address header.number_of_coils_or_registers
          (set_unit_id header.slave s)
        ≡ (inr registers, s')
      → read_frame device header s
        ≡ (ok (inject_modbus_header header (registers_to_bytes registers)), s')
  unfolding read_frame
  read_frame_switch header kind registers s s' (inl (code, k)) answer = rw (code, ← k) (rw answer)
  read_frame_switch header kind registers s s' (inr (code, k)) answer = rw (code, ← k) (rw answer)

  -- The frame of a successful register read gives back the header and the device's registers.
  pub read_frame-registers :
      (header : ModbusHeader) (kind : RegisterType) (registers : List ℕ) (s s' : State)
      → IsHeader header
      → All IsUint16 registers
      → (header.function_code ≡ FunctionCode.read_holding_registers) × (kind ≡ holding_register)
        ⊎ (header.function_code ≡ FunctionCode.read_input_registers) × (kind ≡ input_register)
      → read_registers kind header.address header.number_of_coils_or_registers
          (set_unit_id header.slave s)
        ≡ (inr registers, s')
      → (frame payload : List ℕ) × (read_frame device header s ≡ (ok frame, s'))
        × (extract_modbus_header frame ≡ ok (header, payload))
        × (bytes_to_registers payload ≡ ok registers)
  read_frame-registers header kind registers s s' h fits code answer = (
    inject_modbus_header header (registers_to_bytes registers),
    registers_to_bytes registers,
    read_frame_switch header kind registers s s' code answer,
    extract-inject header (registers_to_bytes registers) h,
    bytes_to_registers-registers_to_bytes registers fits,
  )
