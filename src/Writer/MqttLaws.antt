-- ===== src/Writer/MqttLaws.antt =====
-- What the writer of writer/mqtt.go delivers, and what one unreadable message does to it.
use mathlib.Core.List.{append_assoc, append-nil, flatten, map-append}
use mathlib.Core.Path.{subst}
use gosk.Prelude.{
  All-append, length-append, ℕ, suc, ◌≡◌, refl, ap, sym, ◌∙◌, inl, inr, Bool, Bool-cases, true,
  false, not, List, [], ◌∷◌, ◌++◌, length, map, All, some, arith, ◌≤◌, ◌||◌,
}
use gosk.Prelude.Int.{ℤ, pos, ltb_ℤ, ◌-ℤ◌}
use gosk.Message.Values.{Foreign}
use gosk.Message.Delta.{Time, Mapped}
use gosk.Transfer.Messages.{Bytes, Publication}
use gosk.Writer.Mqtt.{
  Codec, MqttConfig, MqttWriter, Arrival, buffer, set_buffer, decode_all, write_topic, send_mqtt,
  after_switch, flush_cache, add, append_to_cache, write_mapped, len_cache, new_mqtt_writer,
}

flatten-snoc :
    (batches : List (List Bytes)) (batch : List Bytes)
    → flatten (batches ++ batch ∷ []) ≡ flatten batches ++ batch
unfolding flatten
flatten-snoc [] batch = append-nil batch
flatten-snoc (b ∷ batches) batch =
    rw (flatten-snoc batches batch) (sym (append_assoc b (flatten batches) batch))

use_a-set_buffer :
    (side : Bool) (xs : List Bytes) (s : MqttWriter) → (set_buffer side xs s).use_a ≡ s.use_a
use_a-set_buffer true xs s = refl
use_a-set_buffer false xs s = refl

within :
    (size : ℤ) (n l : ℕ) (is_old : Bool)
    → size ≡ pos n
    → (ltb_ℤ size (pos l) || is_old) ≡ false
    → l ≤ n
within size n l is_old e h = ground arith

module _ {w : Foreign} (codec : Codec w) (c : MqttConfig) (read : Bytes → Mapped w)
    (encoded : List (Mapped w) → Bytes) where
  abbrev pub IsReadable : Bytes → Type 0
  IsReadable b = codec.unmarshal b ≡ some (read b)

  decode_all-readable :
      (xs : List Bytes) → All IsReadable xs → decode_all codec c xs ≡ some (map read xs)
  unfolding decode_all
  decode_all-readable [] all = refl
  decode_all-readable (x ∷ xs) (here, all) = rw (here, decode_all-readable xs all, decode_all) refl

  -- One publication holds all messages of a batch.
  abbrev pub publication : List Bytes → Publication
  publication batch = record {
    topic = write_topic codec c;
    payload = codec.encode_all (encoded (map read batch));
  }

  -- What came in was published in batches, or waits in the buffer of one side, which is not too long;
  -- the other buffer is empty.
  abbrev DeliversAt : Bool → ℕ → List Bytes → MqttWriter → Type 0
  DeliversAt side n received s =
      (batches : List (List Bytes)) × (s.published ≡ map publication batches)
      × (flatten batches ++ buffer side s ≡ received)
      × (buffer (not side) s ≡ [])
      × All IsReadable (buffer side s)
      × (length (buffer side s) ≤ n)

  -- The same of the buffer in use.
  abbrev pub Delivers : ℕ → List Bytes → MqttWriter → Type 0
  Delivers n received s = DeliversAt s.use_a n received s

  set_buffer-DeliversAt :
      (side : Bool) (b : Bytes) (n : ℕ) (received : List Bytes) (s : MqttWriter)
      → IsReadable b
      → DeliversAt side n received s
      → DeliversAt side (suc n) (received ++ b ∷ []) (set_buffer side (buffer side s ++ b ∷ []) s)
  set_buffer-DeliversAt true b n received s here (batches, e, f, g, readable, short) = (
    batches,
    e,
    sym (append_assoc (flatten batches) s.buffer_a (b ∷ [])) ∙ ap (λ l. l ++ b ∷ []) f,
    g,
    All-append IsReadable s.buffer_a (b ∷ []) readable (here, tt),
    omega (arith, length-append {0} s.buffer_a (b ∷ [])),
  )
  set_buffer-DeliversAt false b n received s here (batches, e, f, g, readable, short) = (
    batches,
    e,
    sym (append_assoc (flatten batches) s.buffer_b (b ∷ [])) ∙ ap (λ l. l ++ b ∷ []) f,
    g,
    All-append IsReadable s.buffer_b (b ∷ []) readable (here, tt),
    omega (arith, length-append {0} s.buffer_b (b ∷ [])),
  )

  add-Delivers :
      (b : Bytes) (n : ℕ) (received : List Bytes) (s : MqttWriter)
      → IsReadable b
      → Delivers n received s
      → Delivers (suc n) (received ++ b ∷ []) (add codec c b s)
  add-Delivers b n received s here d =
      subst (λ side. DeliversAt side (suc n) (received ++ b ∷ []) (add codec c b s))
        (sym (use_a-set_buffer s.use_a _ s)) (set_buffer-DeliversAt s.use_a b n received s here d)

  module _ (can_marshal : (ds : List (Mapped w)) → codec.marshal ds ≡ some (encoded ds)) where
    after_switch-Delivers :
        (side : Bool) (now : Time) (n : ℕ) (received : List Bytes) (s : MqttWriter)
        (batches : List (List Bytes))
        → s.published ≡ map publication batches
        → flatten batches ++ buffer side s ≡ received
        → buffer (not side) s ≡ []
        → Delivers n received (
            after_switch codec c side
              (some (map read (buffer side s)))
              (record s { use_a = not side; last_flush = now }))
    unfolding after_switch send_mqtt
    after_switch-Delivers true now n received s batches e f g =
        rw (can_marshal (map read s.buffer_a), after_switch, send_mqtt)
          (
            batches ++ s.buffer_a ∷ [],
            rw (e, map-append) refl,
            rw g (append-nil _ ∙ flatten-snoc batches s.buffer_a ∙ f),
            refl,
            rw g tt,
            rw g (omega arith),
          )
    after_switch-Delivers false now n received s batches e f g =
        rw (can_marshal (map read s.buffer_b), after_switch, send_mqtt)
          (
            batches ++ s.buffer_b ∷ [],
            rw (e, map-append) refl,
            rw g (append-nil _ ∙ flatten-snoc batches s.buffer_b ∙ f),
            refl,
            rw g tt,
            rw g (omega arith),
          )

    flush_cache-Delivers :
        (now : Time) (m n : ℕ) (received : List Bytes) (s : MqttWriter)
        → Delivers m received s
        → Delivers n received (flush_cache codec c now s)
    unfolding flush_cache
    flush_cache-Delivers now m n received s (batches, e, f, g, readable, short) =
        rw (decode_all-readable (buffer s.use_a s) readable)
          (after_switch-Delivers s.use_a now n received s batches e f g)

    shorter :
        (m n : ℕ) (received : List Bytes) (s : MqttWriter)
        → length (buffer s.use_a s) ≤ n
        → Delivers m received s
        → Delivers n received s
    shorter m n received s short (batches, e, f, g, readable, _) =
        (batches, e, f, g, readable, short)

    -- With a buffer of size `n`, a message that can be read goes the same way.
    append_to_cache-Delivers :
        (a : Arrival) (n : ℕ) (received : List Bytes) (s : MqttWriter)
        → c.buffer_size ≡ pos n
        → IsReadable a.received
        → Delivers n received s
        → Delivers n (received ++ a.received ∷ []) (append_to_cache codec c a s)
    unfolding append_to_cache len_cache
    append_to_cache-Delivers a n received s size here d =
        let s' = add codec c a.received s in
        let d' : Delivers (suc n) (received ++ a.received ∷ []) s' =
          add-Delivers a.received n received s here d in
        elim (Bool-cases
          (ltb_ℤ c.buffer_size (pos (len_cache s')) || ltb_ℤ c.interval (a.now -ℤ s'.last_flush))) [
            | inl e ↦ rw (e, append_to_cache) (flush_cache-Delivers a.flushed (suc n) n _ s' d')
            | inr e ↦
                rw (e, append_to_cache)
                  (shorter (suc n) n _ s' (within c.buffer_size n (len_cache s') _ size e) d')
          ]

    write_mapped_from-Delivers :
        (arrivals : List Arrival) (n : ℕ) (received : List Bytes) (s : MqttWriter)
        → c.buffer_size ≡ pos n
        → All (λ a. IsReadable a.received) arrivals
        → Delivers n received s
        → Delivers n (received ++ map (λ a. a.received) arrivals) (write_mapped codec c arrivals s)
    unfolding write_mapped
    write_mapped_from-Delivers [] n received s size all d = rw (append-nil received) d
    write_mapped_from-Delivers (a ∷ arrivals) n received s size (here, all) d =
        subst (λ l. Delivers n l (write_mapped codec c (a ∷ arrivals) s))
          (append_assoc received (a.received ∷ []) (map (λ a. a.received) arrivals))
          (write_mapped_from-Delivers arrivals n (received ++ a.received ∷ [])
            (append_to_cache codec c a s) size all
            (append_to_cache-Delivers a n received s size here d))

    -- If all messages can be read and all lists of deltas can be encoded, then from a new writer on,
    -- whatever the clock says: the messages that came in are those of the batches that were published,
    -- each in one publication, and behind them those that wait in the buffer in use, in their order;
    -- these are never more than the buffer's size, and the other buffer is empty.
    pub write_mapped-Delivers :
        (arrivals : List Arrival) (n : ℕ) (now : Time)
        → c.buffer_size ≡ pos n
        → All (λ a. IsReadable a.received) arrivals
        → Delivers n
            (map (λ a. a.received) arrivals)
            (write_mapped codec c arrivals (new_mqtt_writer now))
    unfolding new_mqtt_writer flatten
    write_mapped-Delivers arrivals n now size all =
        write_mapped_from-Delivers arrivals n [] (new_mqtt_writer now) size all
          ([], refl, refl, refl, tt, omega arith)
