-- ===== src/Writer/MqttTests.antt =====
-- The theorems about writer/mqtt.go at a small buffer.
use gosk.Prelude.{ℕ, ◌≡◌, refl, inl, List, [], ◌∷◌, ◌==◌, true, length, some, none, if◌then◌else◌}
use gosk.Prelude.Int.{pos, ◌-ℤ◌}
use gosk.Message.Delta.{Time, Mapped}
use gosk.Message.Samples.{sample, speed, update, delta_of}
use gosk.Transfer.Messages.{Bytes}
use gosk.Writer.Mqtt.{
  Codec, MqttConfig, MqttWriter, Arrival, write_mapped, flush_cache, new_mqtt_writer,
}
use gosk.Writer.MqttLaws.{Delivers, write_mapped-Delivers}
use gosk.Writer.MqttPoison.{Keeps, write_mapped_stuck}

abbrev first_byte : Bytes → ℕ
first_byte [] = 0
first_byte (b ∷ bytes) = b

-- The speed that the first byte gives.
abbrev read : Bytes → Mapped sample
read bytes = delta_of (update (speed (first_byte bytes) ∷ []) ∷ [])

abbrev encoded : List (Mapped sample) → Bytes
encoded deltas = length deltas ∷ []

-- A message that begins with 255 cannot be read.
abbrev codec : Codec sample
codec = record {
  unmarshal = λ bytes. if first_byte bytes == 255 then none else some (read bytes);
  marshal = λ deltas. some (encoded deltas);
  encode_all = λ bytes. bytes;
}

abbrev config : MqttConfig
config = record { username = "244"; interval = pos 100; buffer_size = pos 1 }

abbrev arrival : ℕ → Arrival
arrival b = record { received = b ∷ []; now = pos 1; flushed = pos 2 }

write_mapped-Delivers_example :
    Delivers codec config read encoded 1
      ((7 ∷ []) ∷ (8 ∷ []) ∷ (9 ∷ []) ∷ [])
      (write_mapped codec config (arrival 7 ∷ arrival 8 ∷ arrival 9 ∷ []) (new_mqtt_writer (pos 0)))
write_mapped-Delivers_example =
    write_mapped-Delivers codec config read encoded (λ deltas. refl)
      (arrival 7 ∷ arrival 8 ∷ arrival 9 ∷ []) 1 (pos 0) refl (refl, (refl, (refl, tt)))

-- The second message fills the buffer.
one_publication :
    length
      (write_mapped codec config
        (arrival 7 ∷ arrival 8 ∷ arrival 9 ∷ [])
        (new_mqtt_writer (pos 0))).published
    ≡ 1
unfolding write_mapped new_mqtt_writer ◌-ℤ◌
one_publication = refl

abbrev poisoned : MqttWriter
poisoned = record {
  use_a = true;
  buffer_a = (255 ∷ []) ∷ [];
  buffer_b = [];
  last_flush = pos 0;
  published = [];
}

write_mapped_stuck_example :
    Keeps true poisoned (write_mapped codec config (arrival 7 ∷ arrival 8 ∷ []) poisoned)
    × ((now : Time)
        → (write_mapped codec config (arrival 7 ∷ arrival 8 ∷ []) poisoned).use_a ≡ true
        → (flush_cache codec config now
            (write_mapped codec config (arrival 7 ∷ arrival 8 ∷ []) poisoned)).published
          ≡ (write_mapped codec config (arrival 7 ∷ arrival 8 ∷ []) poisoned).published)
write_mapped_stuck_example =
    write_mapped_stuck codec config true (arrival 7 ∷ arrival 8 ∷ []) poisoned (inl refl)
