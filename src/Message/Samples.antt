-- ===== src/Message/Samples.antt =====
-- Concrete values for the tests: floats that are numbers, one other dynamic value, and a decoder
-- that takes a text in a map as a vessel name.
use gosk.Prelude.{ℕ, true, ◌==◌, String, List, none, some}
use gosk.Prelude.Int.{pos}
use gosk.Message.Values.{Foreign, VesselInfo, GoValue, int64}
use gosk.Message.Decoding.{Mapstructure}
use gosk.Message.Delta.{Value, Update, Mapped, SingleValueMapped, new_source}

abbrev pub sample : Foreign
sample = record {
  Float = ℕ;
  Other = Unit {0};
  float_equal = ◌==◌;
  other_equal = λ a b. none;
  other_deep_equal = λ a b. true;
}

abbrev pub decoder : Mapstructure sample
decoder = record {
  decode_position = λ input. none;
  decode_vessel_info = λ input. none;
  decode_length = λ input. none;
  decode_alarm = λ input. none;
  decode_draft = λ input. none;
}

abbrev pub named : String → VesselInfo
named name = record { mmsi = none; name = some (record { address = 1; target = name }) }

abbrev pub numbered : String → VesselInfo
numbered mmsi = record { mmsi = some (record { address = 2; target = mmsi }); name = none }

abbrev pub speed : ℕ → Value sample
speed n = record { path = "navigation.speed"; value = int64 (pos n) }

abbrev pub depth : ℕ → Value sample
depth n = record { path = "environment.depth"; value = int64 (pos n) }

abbrev pub update : List (Value sample) → Update sample
update values = record { source = new_source; timestamp = pos 5; values = values }

abbrev pub delta_of : List (Update sample) → Mapped sample
delta_of updates = record { context = "ship"; origin = "bridge"; updates = updates }

abbrev pub single : GoValue sample → SingleValueMapped sample
single v = record {
  context = "ship";
  origin = "bridge";
  source = new_source;
  timestamp = pos 5;
  path = "";
  value = v;
}
