-- ===== src/Reader/MqttTests.antt =====
-- Three deltas from writer/mqtt.go to reader/mqtt.go.
use gosk.Prelude.{ℕ, ◌≡◌, refl, ap, false, List, [], ◌∷◌, ◌++◌, map, some, none, Option}
use gosk.Prelude.Int.{pos, ◌-ℤ◌}
use gosk.Message.Values.{GoValue, int64}
use gosk.Message.Delta.{Value, Update, Mapped}
use gosk.Message.Samples.{sample, speed, update, delta_of}
use gosk.Transfer.Messages.{Bytes}
use gosk.Writer.Mqtt.{Codec, MqttConfig, Arrival, write_mapped, new_mqtt_writer}
use gosk.Reader.Mqtt.{Decoder, new_mqtt_reader, receive_all}
use gosk.Reader.MqttLaws.{Carries, received-write_mapped}

abbrev first_byte : Bytes → ℕ
first_byte [] = 0
first_byte (b ∷ bytes) = b

-- A delta with the speed that the first byte gives, and back.
abbrev read : Bytes → Mapped sample
read bytes = delta_of (update (speed (first_byte bytes) ∷ []) ∷ [])

abbrev speed_in_value : GoValue sample → ℕ
speed_in_value (int64 (pos n)) = n
speed_in_value _ = 0

abbrev speed_in_values : List (Value sample) → ℕ
speed_in_values [] = 0
speed_in_values (v ∷ values) = speed_in_value v.value

abbrev speed_in : List (Update sample) → ℕ
speed_in [] = 0
speed_in (u ∷ updates) = speed_in_values u.values

abbrev encoded : List (Mapped sample) → Bytes
encoded = map (λ delta. speed_in delta.updates)

abbrev single : Mapped sample → Bytes
single delta = speed_in delta.updates ∷ []

abbrev codec : Codec sample
codec = record {
  unmarshal = λ bytes. some (read bytes);
  marshal = λ deltas. some (encoded deltas);
  encode_all = λ bytes. 40 ∷ bytes;
}

abbrev without_mark : Bytes → Option Bytes
without_mark [] = none
without_mark (mark ∷ bytes) = some bytes

abbrev decoder : Decoder sample
decoder = record {
  decompress_all = without_mark;
  unmarshal = λ bytes. some (map (λ b. read (b ∷ [])) bytes);
  marshal = λ delta. some (single delta);
  is_refused = λ n. false;
}

read_back :
    (batch : List Bytes) → map (λ b. read (b ∷ [])) (encoded (map read batch)) ≡ map read batch
read_back [] = refl
read_back (b ∷ batch) = ap (λ (deltas : List (Mapped sample)). read b ∷ deltas) (read_back batch)

carries : Carries codec read encoded single decoder
carries = record {
  unpacked = λ bytes. refl;
  decoded = λ batch. ap (λ (deltas : List (Mapped sample)). some deltas) (read_back batch);
  encodes = λ b. refl;
  accepted = λ n. refl;
}

abbrev config : MqttConfig
config = record { username = "244"; interval = pos 100; buffer_size = pos 1 }

abbrev arrival : ℕ → Arrival
arrival b = record { received = b ∷ []; now = pos 1; flushed = pos 2 }

-- Two of the deltas were published together, and the third one waits.
received-write_mapped_example :
    (receive_all decoder
        (write_mapped codec config
          (arrival 7 ∷ arrival 8 ∷ arrival 9 ∷ [])
          (new_mqtt_writer (pos 0))).published
        new_mqtt_reader).sent
      ++ (9 ∷ []) ∷ []
    ≡ (7 ∷ []) ∷ (8 ∷ []) ∷ (9 ∷ []) ∷ []
unfolding write_mapped new_mqtt_writer ◌-ℤ◌
received-write_mapped_example =
    received-write_mapped codec config read encoded single decoder carries (λ deltas. refl)
      (arrival 7 ∷ arrival 8 ∷ arrival 9 ∷ []) 1 (pos 0) refl (refl, (refl, (refl, tt)))
