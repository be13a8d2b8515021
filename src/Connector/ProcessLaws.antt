-- ===== src/Connector/ProcessLaws.antt =====
-- What `Subscribe` of connector/line.go writes of the messages that `process` of connector/main.go
-- put on the bus.
use mathlib.Core.List.{append_assoc, append-nil}
use gosk.Prelude.{
  ℕ, suc, ◌≡◌, sym, ap, ◌∙◌, inl, inr, Bool, Bool-cases, String, List, [], ◌∷◌, ◌++◌, All,
  if◌then◌else◌, Option, none, some,
}
use gosk.Message.RawJson.{RawCodec, raw_map, marshal_raw, unmarshal_raw}
use gosk.Message.RawJsonLaws.{IsRawCodec, IsEncodable, unmarshal_raw-marshal_raw}
use gosk.Connector.Process.{Arrival, Publisher, new_publisher, raw_of, process}
use gosk.Connector.LineWriter.{Subscriber, framed, subscribe}

abbrev pub values_of : List Arrival → List (List ℕ)
values_of [] = []
values_of (a ∷ arrivals) = a.value ∷ values_of arrivals

abbrev pub frames : List (List ℕ) → List (List ℕ)
frames [] = []
frames (value ∷ values) = framed value ∷ frames values

-- Each message that the bus hands on.
abbrev pub all_received : {Wire : Type 0} → List Wire → List (Option Wire)
all_received [] = []
all_received (bytes ∷ sent) = some bytes ∷ all_received sent

-- Those that the bus does not refuse, from its n-th message on.
abbrev pub accepted : (ℕ → Bool) → ℕ → List Arrival → List Arrival
accepted is_refused n [] = []
accepted is_refused n (a ∷ arrivals) =
    let later = accepted is_refused (suc n) arrivals in if is_refused n then later else a ∷ later

pub accepted-All :
    (Holds : Arrival → Type 0) (is_refused : ℕ → Bool) (n : ℕ) (arrivals : List Arrival)
    → All Holds arrivals
    → All Holds (accepted is_refused n arrivals)
accepted-All Holds is_refused n [] all = tt
accepted-All Holds is_refused n (a ∷ arrivals) (here, all) =
    let later = accepted-All Holds is_refused (suc n) arrivals all in
    elim (Bool-cases (is_refused n)) [ inl e ↦ rw e later | inr e ↦ rw e (here, later) ]

module _ (codec : RawCodec) (is : IsRawCodec codec) (connector protocol : String) where
  abbrev pub encoded : Arrival → codec.Wire
  encoded a = (is.encodes (raw_map codec (raw_of connector protocol a))).0

  abbrev pub all_encoded : List Arrival → List codec.Wire
  all_encoded [] = []
  all_encoded (a ∷ arrivals) = encoded a ∷ all_encoded arrivals

  pub marshal_raw-encoded :
      (a : Arrival) → marshal_raw codec (raw_of connector protocol a) ≡ some (encoded a)
  unfolding marshal_raw
  marshal_raw-encoded a = (is.encodes (raw_map codec (raw_of connector protocol a))).1

  pub process-sent :
      (is_refused : ℕ → Bool) (stream : List Arrival) (p : Publisher codec.Wire)
      → (process codec connector protocol is_refused stream p).sent
        ≡ p.sent ++ all_encoded (accepted is_refused p.sends stream)
  unfolding process
  process-sent is_refused [] p = sym (append-nil p.sent)
  process-sent is_refused (a ∷ stream) p = elim (Bool-cases (is_refused p.sends)) [
    | inl e ↦
        rw (process, marshal_raw-encoded a, e)
          (process-sent is_refused stream (record p { sends = suc p.sends }))
    | inr e ↦
        rw (process, marshal_raw-encoded a, e)
          (process-sent is_refused stream
              (record { sends = suc p.sends; sent = p.sent ++ encoded a ∷ [] })
            ∙ append_assoc p.sent (encoded a ∷ []) _)
  ]

  subscribe-encoded :
      (arrivals : List Arrival) (s : Subscriber)
      → All (λ a. IsEncodable codec (raw_of connector protocol a)) arrivals
      → (subscribe codec (all_received (all_encoded arrivals)) s).written
        ≡ s.written ++ frames (values_of arrivals)
  unfolding subscribe raw_of
  subscribe-encoded [] s all = sym (append-nil s.written)
  subscribe-encoded (a ∷ arrivals) s (here, all) =
      let r = raw_of connector protocol a in
      let decoded : unmarshal_raw codec (encoded a) s.raw ≡ (none, r) =
        unmarshal_raw-marshal_raw codec is r s.raw (encoded a) here (marshal_raw-encoded a) in
      rw (subscribe, decoded)
        (subscribe-encoded arrivals (record { raw = r; written = s.written ++ framed a.value ∷ [] })
            all
          ∙ append_assoc s.written (framed a.value ∷ []) _)

  -- If the raw messages can be encoded: the subscriber, whatever it has decoded and written before,
  -- writes the value of each message that the bus accepted, as a line and in order.
  pub subscribe-process :
      (is_refused : ℕ → Bool) (stream : List Arrival) (s : Subscriber)
      → All (λ a. IsEncodable codec (raw_of connector protocol a)) stream
      → (subscribe codec
          (all_received
            (process codec connector protocol is_refused stream (new_publisher codec.Wire)).sent)
          s).written
        ≡ s.written ++ frames (values_of (accepted is_refused 0 stream))
  subscribe-process is_refused stream s all =
      ap (λ sent. (subscribe codec (all_received sent) s).written)
        (process-sent is_refused stream (new_publisher codec.Wire))
      ∙ subscribe-encoded (accepted is_refused 0 stream) s (
          accepted-All (λ a. IsEncodable codec (raw_of connector protocol a)) is_refused 0 stream
            all)
