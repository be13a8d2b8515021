-- ===== src/Writer/Mqtt.antt =====
-- writer/mqtt.go: deltas are collected in one of two buffers, and sent together when the buffer is
-- full or old.
use gosk.Prelude.{
  ℕ, Bool, true, false, not, ◌||◌, String, List, [], ◌∷◌, ◌++◌, length, Option, none, some,
  if◌then◌else◌,
}
use gosk.Prelude.Int.{ℤ, pos, ltb_ℤ, ◌-ℤ◌}
use gosk.Message.Values.{Foreign}
use gosk.Message.Delta.{Time, Mapped}
use gosk.Transfer.Messages.{Bytes, Publication, append}

-- What the writer calls: encoding/json, for one delta and for a list of them, and the encoder of
-- the zstd package.
pub record Codec (w : Foreign) : Type 0 where
  pub unmarshal : Bytes → Option (Mapped w)
  pub marshal : List (Mapped w) → Option Bytes
  pub encode_all : Bytes → Bytes

pub record MqttConfig : Type 0 where
  pub username : String
  pub interval : ℤ
  pub buffer_size : ℤ

-- `published` is what was handed to the client, in the order of the goroutines.
pub record MqttWriter : Type 0 where
  pub use_a : Bool
  pub buffer_a : List Bytes
  pub buffer_b : List Bytes
  pub last_flush : Time
  pub published : List Publication

-- A message that comes in, the clock at the test of the interval, and the clock at a flush.
pub record Arrival : Type 0 where
  pub received : Bytes
  pub now : Time
  pub flushed : Time

unfoldable pub new_mqtt_writer : Time → MqttWriter
new_mqtt_writer now = record {
  use_a = true;
  buffer_a = [];
  buffer_b = [];
  last_flush = now;
  published = [];
}

-- `bufferA` or `bufferB`.
abbrev pub buffer : Bool → MqttWriter → List Bytes
buffer true s = s.buffer_a
buffer false s = s.buffer_b

abbrev pub set_buffer : Bool → List Bytes → MqttWriter → MqttWriter
set_buffer true xs s = record s { buffer_a = xs }
set_buffer false xs s = record s { buffer_b = xs }

unfoldable pub len_cache : MqttWriter → ℕ
len_cache s = length (buffer s.use_a s)

module _ {w : Foreign} (codec : Codec w) (c : MqttConfig) where
  -- The loop of `flushCache`: `none` if a message cannot be read.
  unfoldable pub decode_all : List Bytes → Option (List (Mapped w))
  decode_all [] = some []
  decode_all (v ∷ values) =
      let rest = decode_all values in
      elim (codec.unmarshal v) [
        | none ↦ none
        | some m ↦ elim rest [ none ↦ none | some deltas ↦ some (m ∷ deltas) ]
      ]

  -- `fmt.Sprintf(writeTopic, username)`
  abbrev pub write_topic : String
  write_topic = append "vessels/urn:mrn:imo:mmsi:" c.username

  unfoldable pub send_mqtt : List (Mapped w) → MqttWriter → MqttWriter
  send_mqtt deltas s = elim (codec.marshal deltas) [
    | none ↦ s
    | some bytes ↦ record s {
      published =
          s.published ++ record { topic = write_topic; payload = codec.encode_all bytes } ∷ [];
    }
  ]

  -- What `flushCache` does behind the switch of the buffers, with what its loop makes of `side`.
  unfoldable pub after_switch : Bool → Option (List (Mapped w)) → MqttWriter → MqttWriter
  unfolding send_mqtt
  after_switch side none s = s
  after_switch side (some deltas) s = set_buffer side [] (send_mqtt deltas s)

  unfoldable pub flush_cache : Time → MqttWriter → MqttWriter
  unfolding decode_all after_switch
  flush_cache now s =
      after_switch s.use_a (decode_all (buffer s.use_a s))
        (record s { use_a = not s.use_a; last_flush = now })

  -- The message goes to the buffer in use.
  abbrev pub add : Bytes → MqttWriter → MqttWriter
  add received s = set_buffer s.use_a (buffer s.use_a s ++ received ∷ []) s

  unfoldable pub append_to_cache : Arrival → MqttWriter → MqttWriter
  unfolding len_cache flush_cache
  append_to_cache a s =
      let s' = add a.received s in
      if ltb_ℤ c.buffer_size (pos (len_cache s')) || ltb_ℤ c.interval (a.now -ℤ s'.last_flush)
      then flush_cache a.flushed s'
      else s'

  -- `WriteMapped`, over the messages that `Recv` gives.
  unfoldable pub write_mapped : List Arrival → MqttWriter → MqttWriter
  unfolding append_to_cache
  write_mapped [] s = s
  write_mapped (a ∷ arrivals) s = write_mapped arrivals (append_to_cache a s)
