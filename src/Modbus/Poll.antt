-- ===== src/Modbus/Poll.antt =====
-- protocol/modbus.go, `Poll`, and the limits that connector/modbus.go puts on a register group.
-- A slice that `Poll` sends is the first `n` bytes of the one buffer that every tick fills.
use gosk.Prelude.{
  ℕ, zero, suc, ◌+◌, ◌*◌, ◌%◌, List, [], ◌∷◌, ◌++◌, Bool, ◌==◌, ◌||◌, leb, length, drop, replicate,
  if◌then◌else◌, Option, none, some, Outcome, ok, err, panic,
}
use gosk.Modbus.FunctionCode
use gosk.Modbus.Codec.{ModbusHeader, modbus_header_length}
use gosk.Modbus.Client.{Device, ReadError, read_frame}

abbrev pub modbus_maximum_number_of_registers : ℕ
modbus_maximum_number_of_registers = 125

abbrev pub modbus_maximum_number_of_coils : ℕ
modbus_maximum_number_of_coils = 2000

-- The test that `NewModbusConnector` makes of each register group.
unfoldable pub is_accepted : ModbusHeader → Bool
is_accepted header =
    if header.function_code == FunctionCode.read_coils
      || header.function_code == FunctionCode.read_discrete_inputs
    then leb header.number_of_coils_or_registers modbus_maximum_number_of_coils
    else leb header.number_of_coils_or_registers modbus_maximum_number_of_registers

-- The capacity is computed in `uint16`.
unfoldable pub poll_capacity : ModbusHeader → ℕ
poll_capacity header = (header.number_of_coils_or_registers * 2 + modbus_header_length) % 65536

-- `append(bytes[:0], frame...)`, seen through the caller's slice: the bytes are written into its
-- array if they fit, and into a new array, which the caller does not see, if not.
unfoldable pub fill : List ℕ → List ℕ → List ℕ
fill array frame =
    if leb (length frame) (length array) then frame ++ drop (length frame) array else array

-- Everything that a poll has done: the lengths of the slices sent, oldest first, the array that
-- all of them show, the device, and what ended the loop, if anything did.
pub record Polled (S E : Type 0) : Type 0 where
  pub sent : List ℕ
  pub array : List ℕ
  pub device : S
  pub stopped : Option (Outcome E ℕ)

module _ (dev : Device) where
  open dev use {State, Failure}

  -- What a tick does with what `Read` answered. `bytes[:n]` panics if `n` is beyond the capacity.
  abbrev pub poll_answer :
      Outcome (ReadError Failure) (List ℕ)
      → State
      → Polled State (ReadError Failure)
      → Polled State (ReadError Failure)
  poll_answer (ok bytes) device p =
      if leb (length bytes) (length p.array)
      then record {
        sent = p.sent ++ length bytes ∷ [];
        array = fill p.array bytes;
        device = device;
        stopped = none;
      }
      else record p { device = device; stopped = some panic }
  poll_answer (err e) device p = record p { device = device; stopped = some (err e) }
  poll_answer panic device p = record p { device = device; stopped = some panic }

  unfoldable pub poll_tick :
      ModbusHeader → Polled State (ReadError Failure) → Polled State (ReadError Failure)
  poll_tick header p =
      let (answer, device) = read_frame dev header p.device in poll_answer answer device p

  -- The ticker runs for ever, since nothing closes `done`: the loop over the first ticks.
  unfoldable pub poll_loop :
      ModbusHeader → ℕ → Polled State (ReadError Failure) → Polled State (ReadError Failure)
  unfolding poll_tick
  poll_loop header zero p = p
  poll_loop header (suc ticks) p = elim p.stopped [
    | none ↦ poll_loop header ticks (poll_tick header p)
    | some _ ↦ p
  ]

  unfoldable pub poll : ModbusHeader → ℕ → State → Polled State (ReadError Failure)
  unfolding poll_loop
  poll header ticks s =
      poll_loop header ticks (record {
        sent = [];
        array = replicate (poll_capacity header) 0;
        device = s;
        stopped = none;
      })
