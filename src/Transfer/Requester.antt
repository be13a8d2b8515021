-- ===== src/Transfer/Requester.antt =====
-- transfer/request.go: the receiver of deltas asks the origins what they have, and asks again for
-- what it lacks.
use gosk.Prelude.{
  ℕ, suc, zero, Bool, true, not, String, List, [], ◌∷◌, ◌++◌, Option, none, some, if◌then◌else◌,
}
use gosk.Prelude.Int.{ℤ, pos, ◌+ℤ◌, ◌-ℤ◌, ltb_ℤ}
use gosk.Prelude.Assoc.{Assoc, lookup}
use gosk.Message.Values.{Foreign}
use gosk.Message.Delta.{Time, Uuid}
use gosk.Database.Queries.{
  Connection, has_time, select_first_mapped_data_per_origin, select_existing_remote_counts,
  create_remote_count, log_transfer_request,
}
use gosk.Transfer.Messages.{
  RequestMessage, ResponseMessage, Logged, request, response, Json, Publication, count_cmd,
  request_topic, respond_topic, trim_prefix, period_duration, count_request_cool_down,
}

-- What the requester calls: the database, the two encodings, and `uuid.New`, whose k-th answer is
-- `new_uuid k`.
pub record Outside (w : Foreign) : Type 1 where
  pub connection : Connection w Logged
  pub request_json : Json RequestMessage
  pub response_json : Json ResponseMessage
  pub new_uuid : ℕ → Uuid

pub record OriginPeriod : Type 0 where
  pub origin : String
  pub period : Time

-- The database, all that was published, and how many identifiers were made.
pub record World {w : Foreign} (x : Outside w) : Type 0 where
  pub db : x.connection.State
  pub published : List Publication
  pub made : ℕ

-- No count is known of the origin and period.
abbrev pub is_missing : Assoc (List Time) → String → Time → Bool
is_missing existing origin p = elim (lookup origin existing) [
  | none ↦ true
  | some times ↦ not (has_time p times)
]

-- The loop of `sendCountRequests` over the periods of an origin from `p` on, on fuel; `clock i` is
-- what `time.Now` says when the condition is tested for the i-th time.
module _ (existing : Assoc (List Time)) (origin : String) (clock : ℕ → Time) where
  unfoldable pub missing_periods : ℕ → ℕ → Time → List Time → Option (List Time)
  missing_periods zero i p periods = none
  missing_periods (suc fuel) i p periods =
      let rest =
        missing_periods fuel (suc i) (p +ℤ pos period_duration)
          (if is_missing existing origin p then periods ++ p ∷ [] else periods) in
      if ltb_ℤ p (clock i -ℤ pos count_request_cool_down) then rest else some periods

-- `minStart`
abbrev pub earliest : Time → Assoc Time → Time
earliest first [] = first
earliest first ((origin, start) ∷ origins) =
    earliest (if ltb_ℤ start first then start else first) origins

module _ {w : Foreign} (x : Outside w) where
  unfoldable pub send_mqtt_command : String → RequestMessage → World x → World x
  send_mqtt_command origin message s = elim (x.request_json.marshal message) [
    | none ↦ s
    | some bytes ↦ record s {
      published = s.published ++ record { topic = request_topic origin; payload = bytes } ∷ [];
    }
  ]

  -- The request that is sent next.
  abbrev pub next_request : String → Time → List (Uuid × ℤ) → World x → RequestMessage
  next_request command period counts s = record {
    command = command;
    uuid = x.new_uuid s.made;
    period_start = period;
    counts_per_uuid = counts;
  }

  unfoldable pub log : String → Logged → World x → World x
  unfolding log_transfer_request
  log origin message s = record s { db = (log_transfer_request x.connection origin message s.db).1 }

  -- A new request is sent and logged.
  unfoldable pub send_request : String → String → Time → List (Uuid × ℤ) → World x → World x
  unfolding send_mqtt_command log
  send_request origin command period counts s =
      let message = next_request command period counts s in
      log origin (request message)
        (send_mqtt_command origin message (record s { made = suc s.made }))

  unfoldable pub send_count_requests_for : String → List Time → World x → World x
  unfolding send_request
  send_count_requests_for origin [] s = s
  send_count_requests_for origin (p ∷ periods) s =
      send_count_requests_for origin periods (send_request origin count_cmd p [] s)

  -- The goroutines of the origins, one after the other: `none` is a loop that is out of fuel. Each
  -- starts with a random pause below the configured one, which is taken to be positive: `rand.Intn`
  -- panics if it is not.
  unfoldable pub ask_origins :
      Assoc (List Time) → (String → ℕ → Time) → ℕ → Assoc Time → World x → Option (World x)
  unfolding missing_periods send_count_requests_for
  ask_origins existing clock fuel [] s = some s
  ask_origins existing clock fuel ((origin, start) ∷ origins) s =
      elim (missing_periods existing origin (clock origin) fuel 0 start []) [
        | none ↦ none
        | some periods ↦
            ask_origins existing clock fuel origins (send_count_requests_for origin periods s)
      ]

  -- The two tests of `err`: what is done with the answer to each query.
  unfoldable pub on_counts :
      (String → ℕ → Time)
      → ℕ
      → Assoc Time
      → World x
      → Option (Assoc (List Time)) × x.connection.State
      → Option (World x)
  unfolding ask_origins
  on_counts clock fuel origins s (none, db) = some (record s { db = db })
  on_counts clock fuel origins s (some existing, db) =
      ask_origins existing clock fuel origins (record s { db = db })

  unfoldable pub on_origins :
      Time
      → (String → ℕ → Time)
      → ℕ
      → World x
      → Option (Assoc Time) × x.connection.State
      → Option (World x)
  unfolding on_counts select_existing_remote_counts
  on_origins now clock fuel s (none, db) = some (record s { db = db })
  on_origins now clock fuel s (some origins, db) =
      on_counts clock fuel origins s
        (select_existing_remote_counts x.connection (earliest now origins) db)

  -- One round. `now` is the clock at `minStart`, `clock origin` that of the origin's goroutine.
  unfoldable pub send_count_requests : Time → (String → ℕ → Time) → ℕ → World x → Option (World x)
  unfolding select_first_mapped_data_per_origin on_origins
  send_count_requests now clock fuel s =
      on_origins now clock fuel s (select_first_mapped_data_per_origin x.connection s.db)

  unfoldable pub count_response_received : String → ResponseMessage → World x → World x
  unfolding create_remote_count log
  count_response_received origin answer s = log origin (response answer) (record s {
    db = (create_remote_count x.connection answer.period_start origin answer.data_points s.db).1;
  })

  -- `messageReceived` of the requester. The command of the answer is not looked at.
  unfoldable pub response_received : Publication → World x → World x
  unfolding count_response_received trim_prefix
  response_received m s = elim (x.response_json.unmarshal m.payload) [
    | none ↦ s
    | some answer ↦ count_response_received (trim_prefix m.topic (respond_topic "")) answer s
  ]
