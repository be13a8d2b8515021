-- ===== src/Transfer/CountRound.antt =====
-- A count request from the receiver to an origin, and the answer back, across transfer/request.go
-- and transfer/respond.go.

use gosk.Prelude.{◌∙◌, ◌≡◌, refl, ap, String, [], ◌∷◌, ◌++◌, some, suc}
use gosk.Prelude.Int.{ℤ}
use gosk.Message.Values.{Foreign}
use gosk.Message.Delta.{Time}
use gosk.Database.Queries.{select_count_mapped}
use gosk.Transfer.Messages.{
  RequestMessage, ResponseMessage, response, IsCarried, count_cmd, request_topic, respond_topic,
  trim_prefix, Bytes,
}
use gosk.Transfer.Requester
use gosk.Transfer.Requester.{
  send_count_requests_for, send_request, send_mqtt_command, next_request, log, response_received,
  count_response_received,
}
use gosk.Transfer.Responder
use gosk.Transfer.Responder.{request_received, respond_with_count, on_count, count_answer, dispatch}

trim_prefix-respond_topic :
    (origin : String) → trim_prefix (respond_topic origin) (respond_topic "") ≡ origin
unfolding trim_prefix respond_topic
trim_prefix-respond_topic origin = refl

module _ {w : Foreign} (near : Requester.Outside w) (far : Responder.Outside w) where
  -- What the receiver sends for a period, as it stands on the broker.
  asked-published :
      (origin : String) (p : Time) (s : Requester.World near)
      (carried : IsCarried near.request_json far.request_json (next_request near count_cmd p [] s))
      → (send_count_requests_for near origin (p ∷ []) s).published
        ≡ s.published ++ record { topic = request_topic origin; payload = carried.0 } ∷ []
  unfolding send_count_requests_for send_request send_mqtt_command log
  asked-published origin p s (bytes, e, back) = rw (e, send_mqtt_command) refl

  received_request :
      (origin topic : String) (question : RequestMessage) (bytes : Bytes) (t : Responder.World far)
      → far.request_json.unmarshal bytes ≡ some question
      → request_received far origin (record { topic = topic; payload = bytes }) t
        ≡ dispatch far origin question.command question t
  unfolding request_received
  received_request origin topic question bytes t back = rw (back, request_received) refl

  count_dispatched :
      (origin : String) (question : RequestMessage) (t : Responder.World far)
      → dispatch far origin count_cmd question t
        ≡ on_count far origin question
            (select_count_mapped far.connection origin question.period_start t.db)
            (record t { count_requests_received = suc t.count_requests_received })
  unfolding dispatch
  count_dispatched origin question t = refl

  on_count-published :
      (origin : String) (question : RequestMessage) (count : ℤ) (t : Responder.World far)
      (db : far.connection.State)
      (answered : IsCarried far.response_json near.response_json
        (count_answer far origin question count))
      → (on_count far origin question (some count, db) t).published
        ≡ t.published ++ record { topic = respond_topic origin; payload = answered.0 } ∷ []
  unfolding on_count
  on_count-published origin question count t db (bytes, e, back) = rw (e, on_count) refl

  -- What an origin sends on a request for its count.
  answered-published :
      (origin topic : String) (question : RequestMessage) (count : ℤ) (t : Responder.World far)
      (db : far.connection.State)
      → question.command ≡ count_cmd
      → select_count_mapped far.connection origin question.period_start t.db ≡ (some count, db)
      → (asked : IsCarried near.request_json far.request_json question)
        (answered : IsCarried far.response_json near.response_json
          (count_answer far origin question count))
      → (request_received far origin (record { topic = topic; payload = asked.0 }) t).published
        ≡ t.published ++ record { topic = respond_topic origin; payload = answered.0 } ∷ []
  answered-published origin topic question count t db is_count found (bytes, e, back) answered =
      ap (λ (s : Responder.World far). s.published)
        (received_request origin topic question bytes t back
          ∙ ap (λ c. dispatch far origin c question t) is_count
          ∙ count_dispatched origin question t
          ∙ ap
              (λ r.
                on_count far origin question r
                  (record t { count_requests_received = suc t.count_requests_received }))
              found)
      ∙ on_count-published origin question count _ db answered

  received :
      (origin : String) (answer : ResponseMessage) (s : Requester.World near)
      (answered : IsCarried far.response_json near.response_json answer)
      → response_received near (record { topic = respond_topic origin; payload = answered.0 }) s
        ≡ count_response_received near origin answer s
  unfolding response_received
  received origin answer s (bytes, e, back) =
      rw (back, response_received)
        (ap (λ o. count_response_received near o answer s) (trim_prefix-respond_topic origin))

  -- The count request for a period that a receiver in this state makes, and the answer to it.
  abbrev pub question_for : Time → Requester.World near → RequestMessage
  question_for p s = record {
    command = "count";
    uuid = near.new_uuid s.made;
    period_start = p;
    counts_per_uuid = [];
  }

  abbrev pub reply_for : Time → ℤ → Requester.World near → ResponseMessage
  reply_for p count s = record {
    command = "count";
    uuid = near.new_uuid s.made;
    period_start = p;
    data_points = count;
  }

  -- The count of a period of an origin is stored, and then this answer is logged.
  abbrev pub stored :
      String → Time → ℤ → ResponseMessage → near.connection.State → near.connection.State
  stored origin p count answer db =
      (near.connection.log_transfer_insert origin (response answer)
        (near.connection.insert_or_update_remote_data p origin count db).1).1

  db-received :
      (origin : String) (answer : ResponseMessage) (s : Requester.World near)
      (answered : IsCarried far.response_json near.response_json answer)
      → (response_received near
          (record { topic = respond_topic origin; payload = answered.0 })
          s).db
        ≡ stored origin answer.period_start answer.data_points answer s.db
  unfolding count_response_received log
  db-received origin answer s answered =
      ap (λ (r : Requester.World near). r.db) (received origin answer s answered)

  -- If the local count of the origin can be read, and the count request for a period, with the next
  -- identifier of the receiver, and the answer with this identifier, period and count can be encoded
  -- on one side and read back on the other, then: the receiver publishes that request on the topic of
  -- the origin; the origin, on receiving it, publishes that answer on its own topic; and the receiver,
  -- on receiving that in any state, stores the count under the period and the origin, and then logs
  -- the answer.
  pub count_round :
      (origin : String) (p : Time) (s : Requester.World near) (t : Responder.World far) (count : ℤ)
      (db : far.connection.State)
      → select_count_mapped far.connection origin p t.db ≡ (some count, db)
      → (asked : IsCarried near.request_json far.request_json (question_for p s))
        (answered : IsCarried far.response_json near.response_json (reply_for p count s))
      → ((send_count_requests_for near origin (p ∷ []) s).published
          ≡ s.published ++ record { topic = request_topic origin; payload = asked.0 } ∷ [])
        × ((request_received far origin
              (record { topic = request_topic origin; payload = asked.0 })
              t).published
            ≡ t.published ++ record { topic = respond_topic origin; payload = answered.0 } ∷ [])
        × ((r : Requester.World near)
            → (response_received near
                (record { topic = respond_topic origin; payload = answered.0 })
                r).db
              ≡ stored origin p count (reply_for p count s) r.db)
  count_round origin p s t count db found asked answered = (
    asked-published origin p s asked,
    answered-published origin (request_topic origin) (question_for p s) count t db refl found asked
        answered,
    λ r. db-received origin (reply_for p count s) r answered,
  )
