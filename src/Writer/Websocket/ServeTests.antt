-- ===== src/Writer/Websocket/ServeTests.antt =====
-- The theorems about `serveWs` and `receive` of writer/websocket.go at concrete inputs.
use gosk.Prelude.{◌≡◌, refl, false, ◌&&◌, str_eq, List, [], ◌∷◌, if◌then◌else◌, none, some}
use gosk.Message.Samples.{sample, speed, update, delta_of}
use gosk.Writer.Websocket.Subscriptions.{SubscribeMessage, is_subscribed_to, matches}
use gosk.Writer.Websocket.HubLaws.{Runs}
use gosk.Writer.Websocket.Serve.{
  Unmarshal, Input, request, read, written, received, readable, failed, message_sent,
  channel_closed, serve_ws, write_mapped, new_websocket_writer,
}
use gosk.Writer.Websocket.HubSilence.{IsSilent}
use gosk.Writer.Websocket.ServeLaws.{RejectsNil, write_mapped-IsSilent}
use gosk.Writer.Websocket.FirstSubscription.{first_context, has_values, serve_ws-is_subscribed_to}

-- Decodes every text into one delta, and nothing into a nil pointer.
abbrev json : Unmarshal sample
json = record {
  into = λ bytes target. elim target [
    | none ↦ none
    | some old ↦ some (delta_of (update (speed 1 ∷ []) ∷ []))
  ];
}

json-RejectsNil : RejectsNil json
json-RejectsNil = record { nil_pointer = λ bytes. refl }

abbrev listen : SubscribeMessage
listen = record { context = "*"; subscribe = "nav*" ∷ []; unsubscribe = [] }

abbrev inputs : List Input
inputs =
    request 1 "all"
    ∷ received (some (b'{' ∷ b'}' ∷ [])) (λ i. false)
    ∷ request 2 "none"
    ∷ read 2 (readable listen)
    ∷ received (some (b'{' ∷ b'}' ∷ [])) (λ i. false)
    ∷ written 1 message_sent
    ∷ read 1 failed
    ∷ written 1 channel_closed
    ∷ []

write_mapped-IsSilent_example :
    Runs (write_mapped json inputs (new_websocket_writer "vessels.a")) IsSilent
write_mapped-IsSilent_example =
    write_mapped-IsSilent json json-RejectsNil "vessels.a" inputs (refl, (refl, tt))

serve_ws-is_subscribed_to_example :
    is_subscribed_to (serve_ws "ship" "all") (delta_of (update (speed 1 ∷ []) ∷ [])) ≡ (
      if str_eq "all" "none"
      then false
      else matches "ship" (first_context "ship" "all") && has_values (update (speed 1 ∷ []) ∷ []))
serve_ws-is_subscribed_to_example =
    serve_ws-is_subscribed_to "ship" "all" (delta_of (update (speed 1 ∷ []) ∷ []))
