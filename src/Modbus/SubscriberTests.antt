-- ===== src/Modbus/SubscriberTests.antt =====
-- The theorem about `Subscribe` of connector/modbus.go at two messages, the second of which panics.
use gosk.Prelude.{ℕ, ◌≡◌, ◌↔◌, refl, false, List, [], ◌∷◌, All, Any, inl, inr, panic}
use gosk.Message.RawJson.{RawCodec, zero_raw}
use gosk.Message.RawJsonLaws.{IsEncodable}
use gosk.Connector.Process.{Arrival, new_publisher, raw_of, process}
use gosk.Connector.ProcessLaws.{all_received, accepted}
use gosk.Connector.Samples.{codec, codec-IsRawCodec, arrival}
use gosk.Modbus.Client.{Device}
use gosk.Modbus.Codec.{extract_modbus_header, uint16}
use gosk.Modbus.Subscriber.{subscribe}
use gosk.Modbus.SubscriberLaws.{IsFatal, subscribe-process-panic_iff}

-- Takes every write.
abbrev patient : Device
patient = record {
  State = ℕ;
  Failure = Unit {0};
  set_unit_id = λ unit s. unit;
  read_coils = λ address number s. (inl tt, s);
  read_discrete_inputs = λ address number s. (inl tt, s);
  read_registers = λ type address number s. (inl tt, s);
  write_coil = λ address v s. (inr tt, s);
  write_register = λ address v s. (inr tt, s);
  write_coils = λ address vs s. (inr tt, s);
  write_registers = λ address vs s. (inr tt, s);
}

abbrev coil_write : List ℕ
coil_write = 1 ∷ 0 ∷ 5 ∷ 200 ∷ 236 ∷ 0 ∷ 1 ∷ 255 ∷ 0 ∷ []

abbrev empty_coil_write : List ℕ
empty_coil_write = 1 ∷ 0 ∷ 5 ∷ 200 ∷ 236 ∷ 0 ∷ 1 ∷ []

abbrev frames_codec : RawCodec
frames_codec = codec coil_write empty_coil_write

abbrev stream : List Arrival
stream = arrival coil_write 1 ∷ arrival empty_coil_write 2 ∷ []

stream-IsEncodable : All (λ a. IsEncodable frames_codec (raw_of "bridge" "modbus" a)) stream
unfolding raw_of
stream-IsEncodable = (
  record { timestamp = refl; uuid = refl; value = refl },
  (record { timestamp = refl; uuid = refl; value = refl }, tt),
)

subscribe-process-panic_iff_example :
    (subscribe frames_codec patient
        (all_received
          (process frames_codec "bridge" "modbus"
            (λ n. false)
            stream
            (new_publisher frames_codec.Wire)).sent)
        zero_raw
        0
      ≡ panic)
    ↔ Any IsFatal (accepted (λ n. false) 0 stream)
subscribe-process-panic_iff_example =
    subscribe-process-panic_iff frames_codec (codec-IsRawCodec coil_write empty_coil_write) patient
      "bridge" "modbus" (λ n. false) stream zero_raw 0 stream-IsEncodable

-- The second message does end the process.
second_message_panics :
    subscribe frames_codec patient
      (all_received
        (process frames_codec "bridge" "modbus"
          (λ n. false)
          stream
          (new_publisher frames_codec.Wire)).sent)
      zero_raw
      0
    ≡ panic
unfolding extract_modbus_header uint16
second_message_panics =
    subscribe-process-panic_iff_example.1
      (inr (inl (_, refl, record { writes_coil = refl; one_coil = refl; no_data = refl })))
