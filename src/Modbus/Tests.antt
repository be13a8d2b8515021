-- ===== src/Modbus/Tests.antt =====
-- Concrete frames, and the theorems about protocol/modbus.go at concrete inputs.
use gosk.Prelude.{
  ℕ, ◌≡◌, ◌↔◌, inl, inr, refl, true, false, List, [], ◌∷◌, All, take, replicate, length-replicate,
  ok, panic, arith, ◌⊎◌, none,
}
use gosk.Modbus.Codec.{
  ModbusHeader, put_uint16, coils_to_bytes, registers_to_bytes, register_pairs, uint16,
  bytes_to_registers, bytes_to_coils, inject_modbus_header, extract_modbus_header,
}
use gosk.Modbus.RoundTrip.{
  bytes_to_registers-registers_to_bytes, registers_to_bytes-bytes_to_registers,
  bytes_to_coils-coils_to_bytes, extract-inject, inject-extract,
}
use gosk.Modbus.Client.{Device, ReadError, holding_register, read_frame, write}
use gosk.Modbus.Frames.{
  IsEmptyCoilWrite, write-panic_iff, write-failed, write-registers, read_frame-registers,
}
use gosk.Modbus.Poll.{Polled, poll_tick}
use gosk.Modbus.FrameLength.{AnswersInFull}
use gosk.Modbus.Polling.{IsPollSafe, poll_tick-overwrites}

-- A device whose state is the unit id and the writes it was sent; its registers hold 258.
abbrev board : Device
board = record {
  State = ℕ × List (ℕ × List ℕ);
  Failure = ℕ;
  set_unit_id = λ slave s. (slave, s.1);
  read_coils = λ address number s. (inr (replicate number true), s);
  read_discrete_inputs = λ address number s. (inr (replicate number false), s);
  read_registers = λ kind address number s. (inr (replicate number 258), s);
  write_coil = λ address coil s. (inr tt, (s.0, (address, []) ∷ s.1));
  write_register = λ address register s. (inr tt, (s.0, (address, register ∷ []) ∷ s.1));
  write_coils = λ address coils s. (inr tt, (s.0, (address, []) ∷ s.1));
  write_registers = λ address registers s. (inr tt, (s.0, (address, registers) ∷ s.1));
}

abbrev idle : ℕ × List (ℕ × List ℕ)
idle = (0, [])

abbrev two_registers : ModbusHeader
two_registers = record {
  slave = 1;
  function_code = 3;
  address = 51_436;
  number_of_coils_or_registers = 2;
}

abbrev write_two : ModbusHeader
write_two = record two_registers { function_code = 16 }

abbrev one_coil : ModbusHeader
one_coil = record two_registers { function_code = 5; number_of_coils_or_registers = 1 }

-- The example frame of README.md.
readme_frame :
    inject_modbus_header (record two_registers { function_code = 4 }) (0 ∷ 1 ∷ 0x8e ∷ 0x70 ∷ [])
    ≡ 1 ∷ 0 ∷ 4 ∷ 0xc8 ∷ 0xec ∷ 0 ∷ 2 ∷ 0 ∷ 1 ∷ 0x8e ∷ 0x70 ∷ []
unfolding inject_modbus_header
readme_frame = refl

extract-inject_example :
    extract_modbus_header (inject_modbus_header two_registers (1 ∷ 2 ∷ []))
    ≡ ok (two_registers, 1 ∷ 2 ∷ [])
extract-inject_example = extract-inject two_registers (1 ∷ 2 ∷ []) (omega arith)

parsed : extract_modbus_header (1 ∷ 0 ∷ 3 ∷ 200 ∷ 236 ∷ 0 ∷ 2 ∷ 9 ∷ []) ≡ ok (two_registers, 9 ∷ [])
unfolding extract_modbus_header uint16
parsed = refl

inject-extract_test :
    inject_modbus_header two_registers (9 ∷ []) ≡ 1 ∷ 0 ∷ 3 ∷ 200 ∷ 236 ∷ 0 ∷ 2 ∷ 9 ∷ []
inject-extract_test =
    inject-extract (1 ∷ 0 ∷ 3 ∷ 200 ∷ 236 ∷ 0 ∷ 2 ∷ 9 ∷ []) two_registers (9 ∷ []) (omega arith)
      parsed

registers_read_back :
    bytes_to_registers (registers_to_bytes (258 ∷ 65_535 ∷ [])) ≡ ok (258 ∷ 65_535 ∷ [])
registers_read_back = bytes_to_registers-registers_to_bytes (258 ∷ 65_535 ∷ []) (omega arith)

one_register : bytes_to_registers (1 ∷ 2 ∷ []) ≡ ok (258 ∷ [])
unfolding bytes_to_registers register_pairs uint16
one_register = refl

one_register_written : registers_to_bytes (258 ∷ []) ≡ 1 ∷ 2 ∷ []
one_register_written =
    registers_to_bytes-bytes_to_registers (1 ∷ 2 ∷ []) (258 ∷ []) (omega arith) one_register

two_coils_read : bytes_to_coils (coils_to_bytes (true ∷ false ∷ [])) ≡ ok (true ∷ false ∷ [])
two_coils_read = bytes_to_coils-coils_to_bytes (true ∷ false ∷ [])

abbrev empty_coil_write : List ℕ
empty_coil_write = 1 ∷ 0 ∷ 5 ∷ 200 ∷ 236 ∷ 0 ∷ 1 ∷ []

write-panic_iff_example : ((write board empty_coil_write idle).0 ≡ panic) ↔ (
    (header : ModbusHeader) × (extract_modbus_header empty_coil_write ≡ ok (header, []))
    × IsEmptyCoilWrite header [])
write-panic_iff_example = write-panic_iff board empty_coil_write idle

-- The frame of the example does panic.
empty_coil_write_panics : (write board empty_coil_write idle).0 ≡ panic
unfolding extract_modbus_header uint16
empty_coil_write_panics =
    write-panic_iff_example.1
      (one_coil, refl, record { writes_coil = refl; one_coil = refl; no_data = refl })

short_write : (n : ℕ) → (write board (1 ∷ []) idle).0 ≡ ok n → ⊥
unfolding write extract_modbus_header
short_write n e = cc

write-failed_test :
    ((write board (1 ∷ []) idle).1 ≡ idle)
    ⊎ ((header : ModbusHeader) × (payload : List ℕ) × (extract_modbus_header (1 ∷ [])
          ≡ ok (header, payload))
        × ((write board (1 ∷ []) idle).1 ≡ (header.slave, [])))
write-failed_test = write-failed board (1 ∷ []) idle short_write

write-registers_test :
    write board (inject_modbus_header write_two (registers_to_bytes (7 ∷ 8 ∷ []))) idle
    ≡ (ok 4, (1, (51_436, 7 ∷ 8 ∷ []) ∷ []))
write-registers_test =
    write-registers board write_two (7 ∷ 8 ∷ []) idle (omega arith) (omega arith) refl refl

read_frame-registers_test :
    (frame payload : List ℕ) × (read_frame board two_registers idle ≡ (ok frame, (1, [])))
    × (extract_modbus_header frame ≡ ok (two_registers, payload))
    × (bytes_to_registers payload ≡ ok (258 ∷ 258 ∷ []))
read_frame-registers_test =
    read_frame-registers board two_registers holding_register (258 ∷ 258 ∷ []) idle (1, [])
      (omega arith) (omega arith) (inl (refl, refl)) refl

full_board : AnswersInFull board
full_board = record {
  coils = λ a n s s' values e. ground (arith, length-replicate n true);
  discrete_inputs = λ a n s s' values e. ground (arith, length-replicate n false);
  registers = λ kind a n s s' values e. ground (arith, length-replicate {A = ℕ} n 258);
}

abbrev first_frame : List ℕ
first_frame = 1 ∷ 0 ∷ 3 ∷ 200 ∷ 236 ∷ 0 ∷ 2 ∷ 1 ∷ 2 ∷ 1 ∷ 2 ∷ []

first_read : (read_frame board two_registers (1, [])).0 ≡ ok first_frame
unfolding read_frame inject_modbus_header registers_to_bytes put_uint16
first_read = refl

-- A loop that has sent one slice, whose array still holds an older frame.
abbrev after_one : Polled (ℕ × List (ℕ × List ℕ)) (ReadError ℕ)
after_one = record { sent = 11 ∷ []; array = replicate 11 0; device = (1, []); stopped = none }

after_one-IsPollSafe : IsPollSafe board full_board two_registers after_one
after_one-IsPollSafe = record { room = refl; whole_frames = (refl, tt); no_panic = λ e. cc }

poll_tick-overwrites_example :
    ((poll_tick board two_registers after_one).sent ≡ 11 ∷ 11 ∷ [])
    × All
        (λ n. take n (poll_tick board two_registers after_one).array ≡ first_frame)
        (poll_tick board two_registers after_one).sent
poll_tick-overwrites_example =
    poll_tick-overwrites board full_board two_registers after_one first_frame after_one-IsPollSafe
      first_read
