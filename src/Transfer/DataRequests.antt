-- ===== src/Transfer/DataRequests.antt =====
-- transfer/request.go, `sendDataRequests` and `sendDataRequestWorker`: periods with fewer rows than
-- the origin has are put on a channel, and a number of workers ask for their data.
use gosk.Prelude.{
  Option, ℕ, suc, zero, Bool, true, false, String, List, [], ◌∷◌, ◌++◌, none, some, if◌then◌else◌,
  Outcome, ok, panic, ◌>>=◌,
}
use gosk.Prelude.Int.{ℤ, pos, ltb_ℤ}
use gosk.Prelude.Assoc.{Assoc}
use gosk.Message.Values.{Foreign}
use gosk.Message.Delta.{Time, Uuid}
use gosk.Database.Queries.{select_incomplete_periods, select_count_per_uuid}
use gosk.Transfer.Messages.{data_cmd}
use gosk.Transfer.Requester.{Outside, OriginPeriod, World, send_request}

-- `for i, period := range periods`: what goes to the channel, from the index `i` on.
unfoldable pub queue_periods : ℤ → String → ℕ → List Time → List OriginPeriod
queue_periods max origin i [] = []
queue_periods max origin i (p ∷ periods) =
    let rest = queue_periods max origin (suc i) periods in
    if ltb_ℤ max (pos i) then [] else record { origin = origin; period = p } ∷ rest

-- The goroutine of one origin ends with `periods[0]`, which panics on no periods.
unfoldable pub queue_origin : ℤ → String → List Time → Outcome Unit (List OriginPeriod)
unfolding queue_periods
queue_origin max origin [] = panic
queue_origin max origin (p ∷ periods) = ok (queue_periods max origin 0 (p ∷ periods))

-- The goroutines of the origins, one after the other.
unfoldable pub queue_origins : ℤ → Assoc (List Time) → Outcome Unit (List OriginPeriod)
unfolding queue_origin
queue_origins max [] = ok []
queue_origins max ((origin, periods) ∷ origins) = queue_origin max origin periods >>= λ here.
    queue_origins max origins >>= λ rest. ok (here ++ rest)

-- The workers that still run, what waits in the channel, and the world.
pub record Pool {w : Foreign} (x : Outside w) : Type 0 where
  pub workers : ℕ
  pub waiting : List OriginPeriod
  pub world : World x

module _ {w : Foreign} (x : Outside w) where
  -- The test of `err` behind each query, with what is done with its answer.
  unfoldable pub on_periods :
      ℤ
      → Option (Assoc (List Time)) × x.connection.State
      → World x
      → Outcome Unit (List OriginPeriod) × World x
  unfolding queue_origins
  on_periods max (none, db) s = (ok [], record s { db = db })
  on_periods max (some origins, db) s = (queue_origins max origins, record s { db = db })

  unfoldable pub send_data_requests : ℤ → World x → Outcome Unit (List OriginPeriod) × World x
  unfolding select_incomplete_periods on_periods
  send_data_requests max s = on_periods max (select_incomplete_periods x.connection s.db) s

  unfoldable pub on_counts_per_uuid :
      OriginPeriod → Option (List (Uuid × ℤ)) × x.connection.State → World x → Bool × World x
  unfolding send_request
  on_counts_per_uuid r (none, db) s = (false, record s { db = db })
  on_counts_per_uuid r (some counts, db) s =
      (true, send_request x r.origin data_cmd r.period counts (record s { db = db }))

  -- What one worker does with one request: the Boolean says whether it goes on.
  unfoldable pub handle_request : OriginPeriod → World x → Bool × World x
  unfolding select_count_per_uuid on_counts_per_uuid
  handle_request r s =
      on_counts_per_uuid r (select_count_per_uuid x.connection r.origin r.period s.db) s

  -- Workers take requests from the channel until it is empty or none of them is left.
  unfoldable pub work : ℕ → List OriginPeriod → World x → Pool x
  unfolding handle_request
  work workers [] s = record { workers = workers; waiting = []; world = s }
  work zero (r ∷ requests) s = record { workers = 0; waiting = r ∷ requests; world = s }
  work (suc workers) (r ∷ requests) s =
      let (goes_on, s') = handle_request r s in
      work (if goes_on then suc workers else workers) requests s'
