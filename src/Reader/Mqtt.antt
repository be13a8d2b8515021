-- ===== src/Reader/Mqtt.antt =====
-- reader/mqtt.go, `messageReceived`: a payload with a list of deltas is unpacked, and each delta goes to
-- the message bus.
use gosk.Prelude.{
  ℕ, suc, ◌==◌, List, [], ◌∷◌, ◌++◌, Bool, true, false, Option, none, some, if◌then◌else◌,
}
use gosk.Message.Values.{Foreign}
use gosk.Message.Delta.{Update, Mapped}
use gosk.Transfer.Messages.{Bytes, Publication}

-- What the reader calls: the decoder of the zstd package, encoding/json for a list of deltas and for
-- one, and `Send` of the bus, which may refuse the n-th message that it is given.
pub record Decoder (w : Foreign) : Type 0 where
  pub decompress_all : Bytes → Option Bytes
  pub unmarshal : Bytes → Option (List (Mapped w))
  pub marshal : Mapped w → Option Bytes
  pub is_refused : ℕ → Bool

-- The five counters, the calls of `Send` so far, and what the bus accepted.
pub record MqttReader : Type 0 where
  pub messages_received : ℕ
  pub messages_decompressed : ℕ
  pub messages_unmarshalled : ℕ
  pub total_updates_sent : ℕ
  pub transfer_request_updates_sent : ℕ
  pub sends : ℕ
  pub sent : List Bytes

abbrev pub new_mqtt_reader : MqttReader
new_mqtt_reader = record {
  messages_received = 0;
  messages_decompressed = 0;
  messages_unmarshalled = 0;
  total_updates_sent = 0;
  transfer_request_updates_sent = 0;
  sends = 0;
  sent = [];
}

module _ {w : Foreign} (d : Decoder w) where
  abbrev pub count_update : Update w → MqttReader → MqttReader
  count_update u s = record s {
    total_updates_sent = suc s.total_updates_sent;
    transfer_request_updates_sent =
        if u.source.transfer_uuid == 0
        then s.transfer_request_updates_sent
        else suc s.transfer_request_updates_sent;
  }

  unfoldable pub count_updates : List (Update w) → MqttReader → MqttReader
  count_updates [] s = s
  count_updates (u ∷ updates) s = count_updates updates (count_update u s)

  abbrev pub after_send : Bool → Bytes → List (Update w) → MqttReader → MqttReader
  after_send true bytes updates s = record s { sends = suc s.sends }
  after_send false bytes updates s =
      count_updates updates (record s { sends = suc s.sends; sent = s.sent ++ bytes ∷ [] })

  -- The body of the loop over the deltas.
  abbrev pub send_delta : Option Bytes → List (Update w) → MqttReader → MqttReader
  send_delta none updates s = s
  send_delta (some bytes) updates s = after_send (d.is_refused s.sends) bytes updates s

  unfoldable pub send_deltas : List (Mapped w) → MqttReader → MqttReader
  unfolding count_updates
  send_deltas [] s = s
  send_deltas (delta ∷ deltas) s = send_deltas deltas (send_delta (d.marshal delta) delta.updates s)

  abbrev pub on_deltas : Option (List (Mapped w)) → MqttReader → MqttReader
  on_deltas none s = s
  on_deltas (some deltas) s =
      send_deltas deltas (record s { messages_unmarshalled = suc s.messages_unmarshalled })

  abbrev pub on_payload : Option Bytes → MqttReader → MqttReader
  on_payload none s = s
  on_payload (some received) s =
      on_deltas (d.unmarshal received)
        (record s { messages_decompressed = suc s.messages_decompressed })

  unfoldable pub message_received : Bytes → MqttReader → MqttReader
  unfolding send_deltas
  message_received payload s =
      on_payload (d.decompress_all payload)
        (record s { messages_received = suc s.messages_received })

  -- The messages of a broker, one after the other.
  unfoldable pub receive_all : List Publication → MqttReader → MqttReader
  unfolding message_received
  receive_all [] s = s
  receive_all (p ∷ publications) s = receive_all publications (message_received p.payload s)
