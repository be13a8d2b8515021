-- ===== src/Modbus/SubscriberLaws.antt =====
-- Which messages on the bus end a process that runs `Subscribe` of connector/modbus.go.
use gosk.Prelude.{
  ℕ, ◌≡◌, ◌↔◌, ◌⊎◌, refl, inl, inr, Bool, String, List, [], ◌∷◌, All, Any, none, Outcome-cases, ok,
  panic,
}
use gosk.Message.RawMessage.{Raw}
use gosk.Message.RawJson.{RawCodec, unmarshal_raw}
use gosk.Message.RawJsonLaws.{IsRawCodec, IsEncodable, unmarshal_raw-marshal_raw}
use gosk.Connector.Process.{Arrival, new_publisher, raw_of, process}
use gosk.Connector.ProcessLaws.{
  all_received, accepted, accepted-All, encoded, all_encoded, marshal_raw-encoded, process-sent,
}
use gosk.Modbus.Codec.{ModbusHeader, extract_modbus_header}
use gosk.Modbus.Client.{Device, write}
use gosk.Modbus.Frames.{IsEmptyCoilWrite, write-panic_iff}
use gosk.Modbus.Subscriber.{subscribe}

-- A frame that writes a single coil and has nothing behind its header.
abbrev pub IsFatal : Arrival → Type 0
IsFatal a =
    (header : ModbusHeader) × (extract_modbus_header a.value ≡ ok (header, []))
    × IsEmptyCoilWrite header []

not_here : {A F B : Type 0} → (F → ⊥) → A ↔ B → A ↔ (F ⊎ B)
not_here no_f (to, back) =
    (λ a. inr (to a), λ h. elim h [ inl f ↦ absurd (no_f f) | inr b ↦ back b ])

module _ (codec : RawCodec) (is : IsRawCodec codec) (dev : Device)
    (connector protocol : String) where
  abbrev Encodable : Arrival → Type 0
  Encodable a = IsEncodable codec (raw_of connector protocol a)

  abbrev PanicsExactly : List Arrival → Raw → dev.State → Type 0
  PanicsExactly arrivals raw s =
      (subscribe codec dev (all_received (all_encoded codec is connector protocol arrivals)) raw s
        ≡ panic)
      ↔ Any IsFatal arrivals

  subscribe-encoded :
      (arrivals : List Arrival) (raw : Raw) (s : dev.State)
      → All Encodable arrivals
      → PanicsExactly arrivals raw s
  unfolding subscribe raw_of
  subscribe-encoded [] raw s all = (λ e. cc, λ none_there. absurd none_there)
  subscribe-encoded (a ∷ arrivals) raw s (here, all) =
      let r = raw_of connector protocol a in
      let decoded : unmarshal_raw codec (encoded codec is connector protocol a) raw ≡ (none, r) =
        unmarshal_raw-marshal_raw codec is r raw (encoded codec is connector protocol a) here
          (marshal_raw-encoded codec is connector protocol a) in
      let later = subscribe-encoded arrivals r (write dev a.value s).1 all in
      let fatal = write-panic_iff dev a.value s in
      elim (Outcome-cases (write dev a.value s).0) [
        | inl (n, e) ↦ rw (subscribe, decoded, e) (not_here (λ f. cc (fatal.1 f, e)) later)
        | inr (inl (x, e)) ↦ rw (subscribe, decoded, e) (not_here (λ f. cc (fatal.1 f, e)) later)
        | inr (inr e) ↦ rw (subscribe, decoded, e) (λ p. inl (fatal.0 e), λ f. refl)
      ]

  -- If the raw messages can be encoded: of the messages that a connector put on the bus, the
  -- subscriber panics on those that write a single coil and have nothing behind the header, and
  -- on no others, whatever it has decoded before and in whatever state the device is.
  pub subscribe-process-panic_iff :
      (is_refused : ℕ → Bool) (stream : List Arrival) (raw : Raw) (s : dev.State)
      → All Encodable stream
      → (subscribe codec dev
            (all_received
              (process codec connector protocol is_refused stream (new_publisher codec.Wire)).sent)
            raw
            s
          ≡ panic)
        ↔ Any IsFatal (accepted is_refused 0 stream)
  subscribe-process-panic_iff is_refused stream raw s all =
      rw (process-sent codec is connector protocol is_refused stream (new_publisher codec.Wire)) (
        subscribe-encoded (accepted is_refused 0 stream) raw s
          (accepted-All Encodable is_refused 0 stream all))
