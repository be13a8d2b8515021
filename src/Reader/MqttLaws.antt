-- ===== src/Reader/MqttLaws.antt =====
-- Deltas from writer/mqtt.go over a broker to reader/mqtt.go.
use mathlib.Core.List.{append_assoc, append-nil, flatten, map-append}
use gosk.Prelude.{
  ℕ, suc, ◌≡◌, refl, ap, sym, ◌∙◌, Bool, Option, false, List, [], ◌∷◌, ◌++◌, map, All, some,
}
use gosk.Prelude.Int.{pos}
use gosk.Message.Values.{Foreign}
use gosk.Message.Delta.{Time, Update, Mapped}
use gosk.Transfer.Messages.{Bytes, Publication}
use gosk.Writer.Mqtt.{Codec, MqttConfig, Arrival, MqttWriter, buffer, write_mapped, new_mqtt_writer}
use gosk.Writer.MqttLaws.{IsReadable, publication, Delivers, write_mapped-Delivers}
use gosk.Reader.Mqtt.{
  Decoder, MqttReader, new_mqtt_reader, send_delta, after_send, on_payload, on_deltas, count_update,
  count_updates, send_deltas, message_received, receive_all,
}

-- What zstd and encoding/json document, on deltas that were decoded before: unpacking undoes packing,
-- and each of them can be encoded. The bus refuses nothing.
pub record Carries {w : Foreign} (codec : Codec w) (read : Bytes → Mapped w)
    (encoded : List (Mapped w) → Bytes) (single : Mapped w → Bytes) (d : Decoder w) : Type 0 where
  pub unpacked : (bytes : Bytes) → d.decompress_all (codec.encode_all bytes) ≡ some bytes
  pub decoded :
      (batch : List Bytes) → d.unmarshal (encoded (map read batch)) ≡ some (map read batch)
  pub encodes : (b : Bytes) → d.marshal (read b) ≡ some (single (read b))
  pub accepted : (n : ℕ) → d.is_refused n ≡ false

module _ {w : Foreign} (codec : Codec w) (c : MqttConfig) (read : Bytes → Mapped w)
    (encoded : List (Mapped w) → Bytes) (single : Mapped w → Bytes) (d : Decoder w)
    (carries : Carries codec read encoded single d) where
  abbrev pub passed : List Bytes → List Bytes
  passed = map (λ b. single (read b))

  sent-count_updates :
      (updates : List (Update w)) (s : MqttReader) → (count_updates d updates s).sent ≡ s.sent
  unfolding count_updates
  sent-count_updates [] s = refl
  sent-count_updates (u ∷ updates) s = sent-count_updates updates (count_update d u s)

  sent-send_delta :
      (b : Bytes) (s : MqttReader)
      → (send_delta d (d.marshal (read b)) (read b).updates s).sent ≡ s.sent ++ single (read b) ∷ []
  sent-send_delta b s =
      ap (λ (o : Option Bytes). (send_delta d o (read b).updates s).sent) (carries.encodes b)
      ∙ ap (λ (r : Bool). (after_send d r (single (read b)) (read b).updates s).sent)
          (carries.accepted s.sends)
      ∙ sent-count_updates (read b).updates
          (record s { sends = suc s.sends; sent = s.sent ++ single (read b) ∷ [] })

  sent-send_deltas :
      (batch : List Bytes) (s : MqttReader)
      → (send_deltas d (map read batch) s).sent ≡ s.sent ++ passed batch
  unfolding send_deltas
  sent-send_deltas [] s = sym (append-nil s.sent)
  sent-send_deltas (b ∷ batch) s =
      sent-send_deltas batch (send_delta d (d.marshal (read b)) (read b).updates s)
      ∙ ap (λ (front : List Bytes). front ++ passed batch) (sent-send_delta b s)
      ∙ append_assoc s.sent (single (read b) ∷ []) (passed batch)

  sent-message_received :
      (batch : List Bytes) (s : MqttReader)
      → (message_received d (publication codec c read encoded batch).payload s).sent
        ≡ s.sent ++ passed batch
  unfolding message_received
  sent-message_received batch s =
      ap (λ (o : Option Bytes). (on_payload d o begun).sent)
        (carries.unpacked (encoded (map read batch)))
      ∙ ap (λ (o : Option (List (Mapped w))). (on_deltas d o unpacked).sent) (carries.decoded batch)
      ∙ sent-send_deltas batch
          (record unpacked { messages_unmarshalled = suc s.messages_unmarshalled })
    where
      begun : MqttReader
      begun = record s { messages_received = suc s.messages_received }

      unpacked : MqttReader
      unpacked = record begun { messages_decompressed = suc s.messages_decompressed }

  sent-receive_all :
      (batches : List (List Bytes)) (s : MqttReader)
      → (receive_all d (map (publication codec c read encoded) batches) s).sent
        ≡ s.sent ++ passed (flatten batches)
  unfolding receive_all flatten
  sent-receive_all [] s = sym (append-nil s.sent)
  sent-receive_all (batch ∷ batches) s =
      sent-receive_all batches
        (message_received d (publication codec c read encoded batch).payload s)
      ∙ ap (λ (front : List Bytes). front ++ passed (flatten batches))
          (sent-message_received batch s)
      ∙ append_assoc s.sent (passed batch) (passed (flatten batches))
      ∙ ap (λ (back : List Bytes). s.sent ++ back)
          (sym (map-append (λ b. single (read b)) batch (flatten batches)))

  delivered :
      (n : ℕ) (received : List Bytes) (s : MqttWriter)
      → Delivers codec c read encoded n received s
      → (receive_all d s.published new_mqtt_reader).sent ++ passed (buffer s.use_a s)
        ≡ passed received
  delivered n received s (batches, sent, all, empty, readable, short) =
      ap (λ (p : List Publication). (receive_all d p new_mqtt_reader).sent ++ waiting) sent
      ∙ ap (λ (front : List Bytes). front ++ waiting) (sent-receive_all batches new_mqtt_reader)
      ∙ sym (map-append (λ b. single (read b)) (flatten batches) (buffer s.use_a s))
      ∙ ap passed all
    where
      waiting : List Bytes
      waiting = passed (buffer s.use_a s)

  -- If all messages can be read and all lists of deltas can be encoded by the writer, and the reader
  -- unpacks what was packed, can encode each delta and is never refused by its bus: what a new reader
  -- sends, once it got all publications of a new writer in their order, and behind that the deltas that
  -- wait in the writer's buffer, are the deltas that came to the writer, each once and in order.
  pub received-write_mapped :
      ((deltas : List (Mapped w)) → codec.marshal deltas ≡ some (encoded deltas))
      → (arrivals : List Arrival) (n : ℕ) (now : Time) → c.buffer_size ≡ pos n
      → All (λ a. IsReadable codec c read encoded a.received) arrivals
      → let s = write_mapped codec c arrivals (new_mqtt_writer now) in
        (receive_all d s.published new_mqtt_reader).sent ++ passed (buffer s.use_a s)
        ≡ passed (map (λ a. a.received) arrivals)
  received-write_mapped encodes arrivals n now size all =
      delivered n (map (λ a. a.received) arrivals)
        (write_mapped codec c arrivals (new_mqtt_writer now))
        (write_mapped-Delivers codec c read encoded encodes arrivals n now size all)
