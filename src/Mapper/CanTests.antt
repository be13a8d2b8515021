-- ===== src/Mapper/CanTests.antt =====
-- The theorems about mapper/canbus.go at concrete frames.
use gosk.Prelude.{
  ℕ, ◌+◌, ◌*◌, ◌==◌, ◌≡◌, refl, true, String, Option, [], ◌∷◌, some, none, ok, if◌then◌else◌, arith,
}
use gosk.Prelude.Int.{pos, pos_part}
use gosk.Prelude.Assoc.{lookup, insert}
use gosk.Message.Values.{float64}
use gosk.Message.RawMessage.{Raw}
use gosk.Message.Samples.{sample}
use gosk.Mapper.Expressions.{run_expr, merge_environments, decoded}
use gosk.Mapper.Samples.{naming}
use gosk.Mapper.CanFrame.{CanFrame, IsFrame, frame_to_bytes}
use gosk.Mapper.CanSignal.{SignalDef, Arithmetic, uint64, extract_signal}
use gosk.Mapper.CanBus.{CanBusMappingConfig, MessageDef, new_can_bus_mapper, map_can}
use gosk.Mapper.CanBits.{extract_signal-unsigned}
use gosk.Mapper.CanBusLaws.{map_can-frame_to_bytes}

abbrev arithmetic : Arithmetic sample
arithmetic = record {
  to_float = pos_part;
  scale = λ (val : ℕ) (factor : ℕ) (offset : ℕ). val * factor + offset;
}

abbrev signal : String → ℕ → SignalDef sample
signal name start_bit = record {
  name = name;
  start_bit = start_bit;
  size = 16;
  is_big_endian = true;
  is_signed = true;
  factor = 2;
  offset = 1;
}

abbrev frame : CanFrame
frame = record {
  id = 2364540158;
  dlc = 8;
  flags = 0;
  res0 = 0;
  res1 = 0;
  bytes = 0xff ∷ 0xfe ∷ 1 ∷ 2 ∷ 0 ∷ 0 ∷ 0 ∷ 7 ∷ [];
}

abbrev config : String → String → CanBusMappingConfig sample
config name path = record {
  mapping = record { expression = "value"; expression_environment = []; path = path };
  name = name;
  origin = "EEC1";
}

frame-IsFrame : IsFrame frame
frame-IsFrame = record { id_fits = omega arith; eight_bytes = refl }

abbrev raw : Raw
raw = record {
  connector = "can0";
  timestamp = pos 5;
  type = "canbus";
  uuid = 9;
  value = frame_to_bytes frame;
}

-- -2 in 16 bits comes out as 65534.
extract_signal-unsigned_example :
    extract_signal arithmetic (signal "torque" 7) "EEC1" frame.bytes
    ≡ record { origin = "EEC1"; name = "torque"; value = 131069 }
unfolding uint64
extract_signal-unsigned_example =
    extract_signal-unsigned arithmetic (signal "torque" 7) "EEC1" frame.bytes (omega arith)
      (omega arith) (omega arith) (omega arith)

abbrev message : ℕ → Option (MessageDef sample)
message id =
    if id == 2364540158
    then some (record {
      name = "EEC1";
      signals = signal "torque" 7 ∷ signal "unmapped" 7 ∷ signal "speed" 23 ∷ [];
    })
    else none

map_can-frame_to_bytes_example :
    map_can naming arithmetic
      (new_can_bus_mapper "vessels.self" message (
        config "speed" "old"
        ∷ config "torque" "propulsion.torque"
        ∷ config "speed" "propulsion.speed"
        ∷ []))
      (0 ∷ 0 ∷ [])
      raw
    ≡ ok (record {
      context = "vessels.self";
      origin = "vessels.self";
      updates =
          record {
            source = record { label = "can0"; type = "canbus"; uuid = 9; transfer_uuid = 0 };
            timestamp = pos 5;
            values =
                record { path = "propulsion.torque"; value = float64 131069 }
                ∷ record { path = "propulsion.speed"; value = float64 517 }
                ∷ [];
          }
          ∷ [];
    })
unfolding run_expr merge_environments lookup insert decoded extract_signal uint64
map_can-frame_to_bytes_example =
    map_can-frame_to_bytes naming arithmetic "vessels.self" message
      (config "speed" "old"
        ∷ config "torque" "propulsion.torque"
        ∷ config "speed" "propulsion.speed"
        ∷ [])
      raw frame (0 ∷ 0 ∷ []) frame-IsFrame refl
