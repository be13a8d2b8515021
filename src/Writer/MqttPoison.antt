-- ===== src/Writer/MqttPoison.antt =====
-- What one message that cannot be read does to a buffer of writer/mqtt.go.
use mathlib.Core.List.{append_assoc, append-nil}
use mathlib.Core.Path.{subst}
use gosk.Prelude.{
  ◌≡◌, refl, ap, sym, ◌∙◌, inl, inr, Bool, Bool-cases, true, false, not, List, [], ◌∷◌, ◌++◌, Any,
  Any-front, Option-cases, none, some, ◌||◌,
}
use gosk.Prelude.Int.{pos, ltb_ℤ, ◌-ℤ◌}
use gosk.Message.Values.{Foreign}
use gosk.Message.Delta.{Time, Mapped}
use gosk.Transfer.Messages.{Bytes}
use gosk.Writer.Mqtt.{
  Codec, MqttConfig, MqttWriter, Arrival, buffer, set_buffer, decode_all, send_mqtt, after_switch,
  flush_cache, add, append_to_cache, write_mapped, len_cache,
}

-- What a writer keeps of the buffer of a side.
abbrev pub Keeps : Bool → MqttWriter → MqttWriter → Type 0
Keeps side s s' = (more : List Bytes) × (buffer side s' ≡ buffer side s ++ more)

module _ {w : Foreign} (codec : Codec w) (c : MqttConfig) where
  abbrev pub IsUnreadable : Bytes → Type 0
  IsUnreadable b = codec.unmarshal b ≡ none

  decode_all-unreadable : (xs : List Bytes) → Any IsUnreadable xs → decode_all codec c xs ≡ none
  unfolding decode_all
  decode_all-unreadable [] none_there = absurd none_there
  decode_all-unreadable (x ∷ xs) (inl here) = rw (here, decode_all) refl
  decode_all-unreadable (x ∷ xs) (inr there) = elim (Option-cases (codec.unmarshal x)) [
    | inl e ↦ rw (e, decode_all) refl
    | inr (m, e) ↦ rw (e, decode_all-unreadable xs there, decode_all) refl
  ]

  buffer-send_mqtt :
      (side : Bool) (ds : List (Mapped w)) (s : MqttWriter)
      → buffer side (send_mqtt codec c ds s) ≡ buffer side s
  unfolding send_mqtt
  buffer-send_mqtt side ds s = elim (Option-cases (codec.marshal ds)) [
    | inl e ↦ rw (e, send_mqtt) refl
    | inr (bytes, e) ↦ sides side bytes e
  ]
    where
      sides :
          (side : Bool) (bytes : Bytes)
          → codec.marshal ds ≡ some bytes
          → buffer side (send_mqtt codec c ds s) ≡ buffer side s
      sides true bytes e = rw (e, send_mqtt) refl
      sides false bytes e = rw (e, send_mqtt) refl

  -- The side that holds the message is not emptied.
  buffer-after_switch :
      (side used next : Bool) (now : Time) (s : MqttWriter)
      → Any IsUnreadable (buffer side s)
      → buffer side (
          after_switch codec c used
            (decode_all codec c (buffer used s))
            (record s { use_a = next; last_flush = now }))
        ≡ buffer side s
  unfolding after_switch
  buffer-after_switch true true next now s stuck = rw (decode_all-unreadable s.buffer_a stuck) refl
  buffer-after_switch false false next now s stuck =
      rw (decode_all-unreadable s.buffer_b stuck) refl
  buffer-after_switch true false next now s stuck =
      elim (Option-cases (decode_all codec c s.buffer_b)) [
        | inl e ↦ rw e refl
        | inr (ds, e) ↦
            rw e (buffer-send_mqtt true ds (record s { use_a = next; last_flush = now }))
      ]
  buffer-after_switch false true next now s stuck =
      elim (Option-cases (decode_all codec c s.buffer_a)) [
        | inl e ↦ rw e refl
        | inr (ds, e) ↦
            rw e (buffer-send_mqtt false ds (record s { use_a = next; last_flush = now }))
      ]

  buffer-flush_cache :
      (side : Bool) (now : Time) (s : MqttWriter)
      → Any IsUnreadable (buffer side s)
      → buffer side (flush_cache codec c now s) ≡ buffer side s
  unfolding flush_cache
  buffer-flush_cache side now s stuck = buffer-after_switch side s.use_a (not s.use_a) now s stuck

  buffer-add :
      (side used : Bool) (b : Bytes) (s : MqttWriter)
      → (more : List Bytes) × (buffer side (set_buffer used (buffer used s ++ b ∷ []) s)
          ≡ buffer side s ++ more)
  buffer-add true true b s = (b ∷ [], refl)
  buffer-add false false b s = (b ∷ [], refl)
  buffer-add true false b s = ([], sym (append-nil s.buffer_a))
  buffer-add false true b s = ([], sym (append-nil s.buffer_b))

  Keeps-same :
      (side : Bool) (s t u : MqttWriter)
      → buffer side u ≡ buffer side t
      → Keeps side s t
      → Keeps side s u
  Keeps-same side s t u e (more, k) = (more, e ∙ k)

  buffer-append_to_cache :
      (side : Bool) (a : Arrival) (s : MqttWriter)
      → Any IsUnreadable (buffer side s)
      → Keeps side s (append_to_cache codec c a s)
  unfolding append_to_cache
  buffer-append_to_cache side a s stuck =
      let s' = add codec c a.received s in
      let kept = buffer-add side s.use_a a.received s in
      elim (Bool-cases
        (ltb_ℤ c.buffer_size (pos (len_cache s')) || ltb_ℤ c.interval (a.now -ℤ s'.last_flush))) [
          | inl e ↦
              rw (e, append_to_cache)
                (Keeps-same side s s' _
                  (buffer-flush_cache side a.flushed s'
                    (subst (Any IsUnreadable) (sym kept.1) (Any-front IsUnreadable _ kept.0 stuck)))
                  kept)
          | inr e ↦ rw (e, append_to_cache) kept
        ]

  Keeps-write_mapped :
      (side : Bool) (arrivals : List Arrival) (s : MqttWriter)
      → Any IsUnreadable (buffer side s)
      → Keeps side s (write_mapped codec c arrivals s)
  unfolding write_mapped
  Keeps-write_mapped side [] s stuck = ([], sym (append-nil (buffer side s)))
  Keeps-write_mapped side (a ∷ arrivals) s stuck =
      let (more, e) = buffer-append_to_cache side a s stuck in
      let stuck' = subst (Any IsUnreadable) (sym e) (Any-front IsUnreadable _ more stuck) in
      let (rest, f) = Keeps-write_mapped side arrivals (append_to_cache codec c a s) stuck' in
      (more ++ rest, f ∙ ap (λ l. l ++ rest) e ∙ append_assoc (buffer side s) more rest)

  published-flush_cache :
      (side : Bool) (now : Time) (s : MqttWriter)
      → Any IsUnreadable (buffer side s)
      → s.use_a ≡ side
      → (flush_cache codec c now s).published ≡ s.published
  unfolding flush_cache after_switch
  published-flush_cache side now s stuck u =
      rw
        (decode_all-unreadable (buffer s.use_a s)
          (subst (λ b. Any IsUnreadable (buffer b s)) (sym u) stuck))
        refl

  -- If a buffer holds a message that cannot be read, then, whatever comes in later, that buffer keeps
  -- all its messages and only gets longer, and a flush of it publishes nothing.
  pub write_mapped_stuck :
      (side : Bool) (arrivals : List Arrival) (s : MqttWriter)
      → Any IsUnreadable (buffer side s)
      → Keeps side s (write_mapped codec c arrivals s)
        × ((now : Time)
            → (write_mapped codec c arrivals s).use_a ≡ side
            → (flush_cache codec c now (write_mapped codec c arrivals s)).published
              ≡ (write_mapped codec c arrivals s).published)
  write_mapped_stuck side arrivals s stuck =
      let kept = Keeps-write_mapped side arrivals s stuck in
      let stuck' = subst (Any IsUnreadable) (sym kept.1) (Any-front IsUnreadable _ kept.0 stuck) in
      (kept, λ now u. published-flush_cache side now (write_mapped codec c arrivals s) stuck' u)
