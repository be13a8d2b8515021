-- ===== src/Writer/Websocket/ServeLaws.antt =====
-- What becomes of the deltas that `receive` of writer/websocket.go reads from the message bus.
use gosk.Prelude.{
  ℕ, ◌≡◌, refl, ap, ◌∙◌, Bool, false, bind_ok, String, List, [], ◌∷◌, Option, none, some, ok, ◌>>=◌,
}
use gosk.Message.Values.{Foreign}
use gosk.Writer.Websocket.Hub.{Hub, connect, register, unregister, subscribe, run}
use gosk.Writer.Websocket.HubLaws.{Runs, member}
use gosk.Writer.Websocket.Serve.{
  Unmarshal, Input, request, read, written, received, failed, unreadable, readable, message_sent,
  message_failed, channel_closed, ping_sent, ping_failed, serve_events, serve_ws, read_pump,
  write_pump, receive_round, events_of, write_mapped, new_websocket_writer,
}
use gosk.Writer.Websocket.HubSilence.{IsSilent, Keeps, step_keeps, one_keeps}

-- What encoding/json documents of `Unmarshal`: a nil pointer is an error, whatever the bytes are.
pub record RejectsNil {w : Foreign} (json : Unmarshal w) : Type 0 where
  pub nil_pointer : (bytes : List ℕ) → json.into bytes none ≡ none

-- Each request makes another client.
abbrev pub RequestsOnce : List ℕ → List Input → Type 0
RequestsOnce seen [] = Unit
RequestsOnce seen (request i parameter ∷ inputs) =
    (member i seen ≡ false) × RequestsOnce (i ∷ seen) inputs
RequestsOnce seen (_ ∷ inputs) = RequestsOnce seen inputs

abbrev requested : List ℕ → Input → List ℕ
requested seen (request i parameter) = i ∷ seen
requested seen _ = seen

abbrev IsNewRequest : List ℕ → Input → Type 0
IsNewRequest seen (request i parameter) = member i seen ≡ false
IsNewRequest seen _ = Unit

RequestsOnce-input :
    (seen : List ℕ) (input : Input) (inputs : List Input)
    → RequestsOnce seen (input ∷ inputs)
    → IsNewRequest seen input × RequestsOnce (requested seen input) inputs
RequestsOnce-input seen (request i parameter) inputs once = once
RequestsOnce-input seen (read i r) inputs once = (tt, once)
RequestsOnce-input seen (written i r) inputs once = (tt, once)
RequestsOnce-input seen (received bytes is_full) inputs once = (tt, once)

module _ {w : Foreign} where
  module _ (json : Unmarshal w) (rejects : RejectsNil json) where
    abbrev Heard : List ℕ → Hub w → Input → Type 0
    Heard seen h input = Runs (events_of json h.self input >>= run h) (Keeps (requested seen input))

    request_keeps :
        (h : Hub w) (seen : List ℕ) (i : ℕ) (parameter : String)
        → member i seen ≡ false
        → Keeps seen h
        → Heard seen h (request i parameter)
    unfolding events_of serve_events run
    request_keeps h seen i parameter new kept =
        let (h1, e1, kept1) =
          step_keeps h seen (connect i (serve_ws h.self parameter)) tt tt kept in
        let (h2, e2, kept2) = step_keeps h1 seen (register i) new tt kept1 in
        (h2, rw e1 (rw e2 refl), kept2)

    round_is_silent :
        (bytes : Option (List ℕ)) (is_full : ℕ → Bool)
        → receive_round json none bytes is_full ≡ ok []
    unfolding receive_round
    round_is_silent none is_full = refl
    round_is_silent (some bytes) is_full = rw (receive_round, rejects.nil_pointer bytes) refl

    input_keeps :
        (h : Hub w) (seen : List ℕ) (input : Input)
        → IsNewRequest seen input
        → Keeps seen h
        → Heard seen h input
    unfolding events_of read_pump write_pump
    input_keeps h seen (request i parameter) new kept = request_keeps h seen i parameter new kept
    input_keeps h seen (read i failed) new kept = one_keeps h seen (unregister i) tt tt kept
    input_keeps h seen (read i unreadable) new kept = unfold run in (h, refl, kept)
    input_keeps h seen (read i (readable m)) new kept = one_keeps h seen (subscribe i m) tt tt kept
    input_keeps h seen (written i message_sent) new kept = unfold run in (h, refl, kept)
    input_keeps h seen (written i message_failed) new kept = unfold run in (h, refl, kept)
    input_keeps h seen (written i channel_closed) new kept =
        one_keeps h seen (unregister i) tt tt kept
    input_keeps h seen (written i ping_sent) new kept = unfold run in (h, refl, kept)
    input_keeps h seen (written i ping_failed) new kept = one_keeps h seen (unregister i) tt tt kept
    input_keeps h seen (received bytes is_full) new kept =
        (h, ap (λ r. r >>= run h) (round_is_silent bytes is_full) ∙ unfold run in refl, kept)

    inputs_keep :
        (inputs : List Input) (h : Hub w) (seen : List ℕ)
        → RequestsOnce seen inputs
        → Keeps seen h
        → Runs (write_mapped json inputs h) IsSilent
    unfolding write_mapped
    inputs_keep [] h seen once kept = (h, refl, kept.1)
    inputs_keep (input ∷ inputs) h seen once kept =
        let (new, later) = RequestsOnce-input seen input inputs once in
        let (h', e, kept') = input_keeps h seen input new kept in
        let (end, rest, silent) = inputs_keep inputs h' (requested seen input) later kept' in
        let (events, e1, e2) = bind_ok (events_of json h.self input) (run h) e in
        (end, rw e1 (rw e2 rest), silent)

    -- Where decoding into a nil pointer is an error, the server runs to the end of every sequence
    -- of inputs in which each request makes another client, and then no client was ever sent a
    -- delta and none is in the cache, whatever was received from the message bus.
    pub write_mapped-IsSilent :
        (self : String) (inputs : List Input)
        → RequestsOnce [] inputs
        → Runs (write_mapped json inputs (new_websocket_writer self)) IsSilent
    write_mapped-IsSilent self inputs once =
        inputs_keep inputs (new_websocket_writer self) [] once
          (tt, record { greeted = tt; no_cache = refl })
