-- ===== src/Modbus/ConnectorTests.antt =====
-- The theorems about connector/modbus.go at a device that fails.
use gosk.Prelude.{ℕ, zero, suc, ◌≡◌, refl, List, [], ◌∷◌, ◌++◌, replicate, ◌⊎◌, inl, inr, ok, panic}
use gosk.Modbus.Codec.{ModbusHeader, inject_modbus_header, registers_to_bytes, put_uint16}
use gosk.Modbus.Client.{Device, read_frame}
use gosk.Modbus.Poll.{poll_capacity}
use gosk.Modbus.Connector.{Poll, Connector, tick, done, fill_at, publish, run_polls}
use gosk.Modbus.ConnectorPanic.{second_error_panics}

-- Answers reads of registers with zeros as often as its state says, and then no more.
abbrev zeros : ℕ → ℕ → (Unit {0} ⊎ List ℕ) × ℕ
zeros number zero = (inl tt, zero)
zeros number (suc left) = (inr (replicate number 0), left)

abbrev worn : Device
worn = record {
  State = ℕ;
  Failure = Unit {0};
  set_unit_id = λ unit left. left;
  read_coils = λ address number left. (inl tt, left);
  read_discrete_inputs = λ address number left. (inl tt, left);
  read_registers = λ type address number left. zeros number left;
  write_coil = λ address v left. (inl tt, left);
  write_register = λ address v left. (inl tt, left);
  write_coils = λ address vs left. (inl tt, left);
  write_registers = λ address vs left. (inl tt, left);
}

abbrev broken : Device
broken = record worn { read_registers = λ type address number left. (inl tt, left) }

abbrev group : ℕ → ModbusHeader
group address = record {
  slave = 1;
  function_code = 3;
  address = address;
  number_of_coils_or_registers = 2;
}

abbrev groups : List ModbusHeader
groups = group 10 ∷ group 20 ∷ []

abbrev poll : ℕ → ℕ → ℕ → Poll
poll call address array = record { call = call; header = group address; array = array }

-- The buffers hold eleven bytes.
abbrev empty : List ℕ
empty = replicate 11 0

-- The second poll of the first call has failed, and then the first poll of the second call.
abbrev two_failed : Connector ℕ
two_failed = record {
  device = 0;
  running = poll 0 10 0 ∷ poll 1 20 3 ∷ poll 2 10 4 ∷ poll 2 20 5 ∷ [];
  buffers = empty ∷ empty ∷ empty ∷ empty ∷ empty ∷ empty ∷ [];
  closed = 1 ∷ 0 ∷ [];
  calls = 3;
  stream = [];
}

second_error_panics_example :
    run_polls broken groups
      ((done ∷ []) ++ ((tick 1 ∷ tick 1 ∷ []) ++ tick 0 ∷ tick 5 ∷ []))
      (publish broken groups 0)
    ≡ panic
unfolding run_polls publish read_frame poll_capacity
second_error_panics_example =
    second_error_panics broken groups 0 (done ∷ []) (tick 1 ∷ []) (tick 5 ∷ [])
      (publish broken groups 0) two_failed 1 0 0 refl (poll 0 20 1, refl, refl, refl) refl
      (poll 0 10 0, refl, refl, refl)

-- The second poll fails at its second read: the first one is left, and two new ones are started.
abbrev worn_out : Connector ℕ
worn_out = record {
  device = 0;
  running = poll 0 10 0 ∷ poll 1 10 2 ∷ poll 1 20 3 ∷ [];
  buffers =
      inject_modbus_header (group 10) (0 ∷ 0 ∷ 0 ∷ 0 ∷ [])
      ∷ inject_modbus_header (group 20) (0 ∷ 0 ∷ 0 ∷ 0 ∷ [])
      ∷ empty
      ∷ empty
      ∷ [];
  closed = 0 ∷ [];
  calls = 2;
  stream = record { array = 1; length = 11 } ∷ record { array = 0; length = 11 } ∷ [];
}

worn_out_run :
    run_polls worn groups (tick 1 ∷ tick 0 ∷ tick 1 ∷ []) (publish worn groups 2) ≡ ok worn_out
unfolding run_polls publish read_frame poll_capacity fill_at registers_to_bytes put_uint16
    inject_modbus_header
worn_out_run = refl

-- Without register groups, `receive` returns at once and is called again, for ever.
called_again :
    (run_polls broken [] (done ∷ done ∷ []) (publish broken [] 0))
    ≡ ok (record { device = 0; running = []; buffers = []; closed = []; calls = 3; stream = [] })
unfolding run_polls publish
called_again = refl
