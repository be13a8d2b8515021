-- ===== src/Transfer/CountLiveness.antt =====
-- A round of count requests in transfer/request.go asks every origin for every period that lacks a
-- count.
use mathlib.Core.Path.{subst}
use gosk.Prelude.{
  ℕ, suc, ◌≡◌, refl, sym, inl, inr, String, List, [], ◌∷◌, ◌++◌, All, Any, Any-front, Any-back,
  Option, some,
}
use gosk.Prelude.Int.{ℤ, pos, ◌-ℤ◌, ◌≤ℤ◌}
use gosk.Prelude.Assoc.{Assoc}
use gosk.Message.Values.{Foreign}
use gosk.Message.Delta.{Time, Uuid}
use gosk.Database.Queries.{select_first_mapped_data_per_origin, select_existing_remote_counts}
use gosk.Transfer.Messages.{
  RequestMessage, Publication, count_cmd, request_topic, count_request_cool_down, Bytes,
}
use gosk.Transfer.Requester.{
  Outside, World, earliest, send_mqtt_command, next_request, log, send_request,
  send_count_requests_for, ask_origins, on_counts, on_origins, send_count_requests,
}
use gosk.Transfer.CountLaws.{period_at, IsDue, missing_periods-ends, missing_periods-has}

module _ {w : Foreign} (x : Outside w) where
  -- A publication that asks an origin for its count of a period.
  abbrev pub IsCountRequest : String → Time → Publication → Type 0
  IsCountRequest origin p m =
      (asked : RequestMessage) × (m.topic ≡ request_topic origin)
      × (x.request_json.marshal asked ≡ some m.payload)
      × (asked.command ≡ count_cmd)
      × (asked.period_start ≡ p)

  abbrev pub CanMarshal : Type 0
  CanMarshal = (m : RequestMessage) → (bytes : Bytes) × (x.request_json.marshal m ≡ some bytes)

  send_request-published :
      (origin command : String) (p : Time) (counts : List (Uuid × ℤ)) (s : World x) (bytes : Bytes)
      → x.request_json.marshal (next_request x command p counts s) ≡ some bytes
      → (send_request x origin command p counts s).published
        ≡ s.published ++ record { topic = request_topic origin; payload = bytes } ∷ []
  unfolding send_request send_mqtt_command log
  send_request-published origin command p counts s bytes e = rw (e, send_mqtt_command) refl

  send_count_requests_for-keeps :
      CanMarshal
      → (P : Publication → Type 0) (origin : String) (periods : List Time) (s : World x)
      → Any P s.published
      → Any P (send_count_requests_for x origin periods s).published
  unfolding send_count_requests_for
  send_count_requests_for-keeps total P origin [] s here = here
  send_count_requests_for-keeps total P origin (p ∷ periods) s here =
      let (bytes, e) = total (next_request x count_cmd p [] s) in
      send_count_requests_for-keeps total P origin periods (send_request x origin count_cmd p [] s)
        (rw (send_request-published origin count_cmd p [] s bytes e)
          (Any-front P s.published _ here))

  send_count_requests_for-asks :
      CanMarshal
      → (origin : String) (q : Time) (periods : List Time) (s : World x) → Any (λ p. p ≡ q) periods
      → Any (IsCountRequest origin q) (send_count_requests_for x origin periods s).published
  unfolding send_count_requests_for
  send_count_requests_for-asks total origin q [] s none_there = absurd none_there
  send_count_requests_for-asks total origin q (p ∷ periods) s (inl same) =
      let (bytes, e) = total (next_request x count_cmd p [] s) in
      send_count_requests_for-keeps total (IsCountRequest origin q) origin periods
        (send_request x origin count_cmd p [] s)
        (rw (send_request-published origin count_cmd p [] s bytes e) (
          Any-back (IsCountRequest origin q) s.published _
            (inl (next_request x count_cmd p [] s, refl, e, refl, same))))
  send_count_requests_for-asks total origin q (p ∷ periods) s (inr there) =
      send_count_requests_for-asks total origin q periods (send_request x origin count_cmd p [] s)
        there

  -- A round that gives this ends, with the count request published.
  abbrev AskedBy : Option (World x) → String → Time → Type 0
  AskedBy r origin p = (s' : World x) × (r ≡ some s') × Any (IsCountRequest origin p) s'.published

  -- The fuel is enough for the periods of an origin.
  abbrev pub IsEnough : ℕ → Time → String × Time → Type 0
  IsEnough n limit o = (limit -ℤ pos count_request_cool_down) ≤ℤ period_at (o.1) n

  module _ (existing : Assoc (List Time)) (clock : String → ℕ → Time) (n : ℕ) (limit : Time) where
    ask_origins-keeps :
        CanMarshal
        → (P : Publication → Type 0) → ((o : String) (j : ℕ) → clock o j ≤ℤ limit)
        → (origins : Assoc Time) (s : World x) → All (IsEnough n limit) origins
        → Any P s.published
        → (s' : World x) × (ask_origins x existing clock (suc n) origins s ≡ some s')
          × Any P s'.published
    unfolding ask_origins
    ask_origins-keeps total P bounded [] s enough here = (s, refl, here)
    ask_origins-keeps total P bounded ((o, start) ∷ origins) s (fits, enough) here =
        let (periods, ends, due) =
          missing_periods-ends existing o (clock o) n 0 limit start [] (bounded o) fits tt in
        let (s', e, there) =
          ask_origins-keeps total P bounded origins (send_count_requests_for x o periods s) enough
            (send_count_requests_for-keeps total P o periods s here) in
        (s', rw (ends, ask_origins) e, there)

    abbrev Asks : Assoc Time → World x → String → Time → Type 0
    Asks origins s = AskedBy (ask_origins x existing clock (suc n) origins s)

    ask_origins-head :
        CanMarshal
        → ((o : String) (j : ℕ) → clock o j ≤ℤ limit)
        → (origins : Assoc Time) (s : World x) (origin : String) (start low : Time) (k : ℕ)
        → IsEnough n limit (origin, start)
        → All (IsEnough n limit) origins
        → ((j : ℕ) → low ≤ℤ clock origin j)
        → IsDue existing origin (clock origin) low (period_at start k)
        → Asks ((origin, start) ∷ origins) s origin (period_at start k)
    unfolding ask_origins
    ask_origins-head total bounded origins s origin start low k fits enough later due =
        let (periods, ends, _) =
          missing_periods-ends existing origin (clock origin) n 0 limit start [] (bounded origin)
            fits tt in
        let listed =
          missing_periods-has existing origin (clock origin) (suc n) 0 k low start [] periods ends
            later due in
        let (s', e, asked) =
          ask_origins-keeps total (IsCountRequest origin (period_at start k)) bounded origins
            (send_count_requests_for x origin periods s) enough
            (send_count_requests_for-asks total origin (period_at start k) periods s listed) in
        (s', rw (ends, ask_origins) e, asked)

    pub ask_origins-Asks :
        CanMarshal
        → ((o : String) (j : ℕ) → clock o j ≤ℤ limit)
        → (origins : Assoc Time) (s : World x) (origin : String) (start low : Time) (k : ℕ)
        → All (IsEnough n limit) origins
        → Any (λ o. o ≡ (origin, start)) origins
        → ((j : ℕ) → low ≤ℤ clock origin j)
        → IsDue existing origin (clock origin) low (period_at start k)
        → Asks origins s origin (period_at start k)
    unfolding ask_origins
    ask_origins-Asks total bounded [] s origin start low k enough none_there later due =
        absurd none_there
    ask_origins-Asks total bounded (o ∷ origins) s origin start low k (fits, enough) (inl same)
          later due =
        subst (λ z. Asks (z ∷ origins) s origin (period_at start k)) (sym same)
          (ask_origins-head total bounded origins s origin start low k
            (subst (IsEnough n limit) same fits) enough later due)
    ask_origins-Asks total bounded ((o, first) ∷ origins) s origin start low k (fits, enough)
          (inr there) later due =
        let (periods, ends, _) =
          missing_periods-ends existing o (clock o) n 0 limit first [] (bounded o) fits tt in
        let (s', e, asked) =
          ask_origins-Asks total bounded origins (send_count_requests_for x o periods s) origin
            start low k enough there later due in
        (s', rw (ends, ask_origins) e, asked)

  -- If both queries succeed, requests can be encoded, no clock passes a limit, and the fuel is enough
  -- for the periods up to the limit less the cool down, then a round of sendCountRequests ends, and
  -- it has published a count request on the topic of the origin for every period of an origin that
  -- lacks a count and starts more than the cool down before the clock.
  pub send_count_requests-asks :
      (s : World x) (db db' : x.connection.State) (origins : Assoc Time)
      (existing : Assoc (List Time)) (now : Time) (clock : String → ℕ → Time) (n : ℕ)
      (limit low : Time) (origin : String) (start : Time) (k : ℕ)
      → CanMarshal
      → select_first_mapped_data_per_origin x.connection s.db ≡ (some origins, db)
      → select_existing_remote_counts x.connection (earliest now origins) db ≡ (some existing, db')
      → ((o : String) (j : ℕ) → clock o j ≤ℤ limit)
      → All (IsEnough n limit) origins
      → Any (λ o. o ≡ (origin, start)) origins
      → ((j : ℕ) → low ≤ℤ clock origin j)
      → IsDue existing origin (clock origin) low (period_at start k)
      → (s' : World x) × (send_count_requests x now clock (suc n) s ≡ some s')
        × Any (IsCountRequest origin (period_at start k)) s'.published
  unfolding send_count_requests on_origins on_counts
  send_count_requests-asks s db db' origins existing now clock n limit low origin start k total
        first second bounded enough here later due =
      subst (λ r. AskedBy (on_origins x now clock (suc n) s r) origin (period_at start k))
        (sym first)
        (subst (λ r. AskedBy (on_counts x clock (suc n) origins s r) origin (period_at start k))
          (sym second)
          (ask_origins-Asks existing clock n limit total bounded origins (record s { db = db' })
            origin start low k enough here later due))
