-- ===== src/Transfer/DataLaws.antt =====
-- The data requests of transfer/request.go: which periods reach the channel, and what becomes of the
-- workers.
use mathlib.Core.Path.{subst}
use mathlib.Core.Option.{some-injective}
use gosk.Prelude.{
  ℕ, suc, zero, ◌+◌, ◌-◌, ◌≡◌, ◌≢◌, refl, ap, ◌∙◌, Bool-cases, inl, inr, true, false, String,
  str_eq, List, [], ◌∷◌, ◌++◌, take, drop, length, map, All, Option, some, none, ok, arith,
}
use gosk.Prelude.Int.{ℤ, pos}
use gosk.Prelude.Assoc.{Assoc, lookup, insert}
use gosk.Message.Values.{Foreign}
use gosk.Message.Delta.{Time, Uuid}
use gosk.Database.Rows.{Rows, refused, late, answered, scan_all, read_rows}
use gosk.Database.Queries.{select_incomplete_periods, select_count_per_uuid, add_period, or_empty}
use gosk.Transfer.Requester.{Outside, OriginPeriod, World}
use gosk.Transfer.DataRequests.{
  queue_periods, queue_origin, queue_origins, on_periods, send_data_requests, on_counts_per_uuid,
  handle_request, work,
}

abbrev at_origin : String → Time → OriginPeriod
at_origin origin p = record { origin = origin; period = p }

-- The first periods of each origin, at most `n` of each.
abbrev pub first_periods : ℕ → Assoc (List Time) → List OriginPeriod
first_periods n [] = []
first_periods n ((origin, periods) ∷ origins) =
    map (at_origin origin) (take n periods) ++ first_periods n origins

queue_periods_lem :
    (n i max : ℕ) (origin : String) (periods : List Time)
    → n + i ≡ suc max
    → queue_periods (pos max) origin i periods ≡ map (at_origin origin) (take n periods)
unfolding queue_periods
queue_periods_lem zero i max origin [] e = refl
queue_periods_lem (suc n) i max origin [] e = refl
queue_periods_lem zero i max origin (p ∷ periods) e = ground arith
queue_periods_lem (suc n) i max origin (p ∷ periods) e =
    ground (arith, queue_periods_lem n (suc i) max origin periods (omega arith))

abbrev IsPresent : List Time → Type 0
IsPresent periods = periods ≢ []

abbrev ArePresent : Assoc (List Time) → Type 0
ArePresent origins = All (λ o. IsPresent (o.1)) origins

queue_origins_lem :
    (max : ℕ) (origins : Assoc (List Time))
    → ArePresent origins
    → queue_origins (pos max) origins ≡ ok (first_periods (suc max) origins)
unfolding queue_origins queue_origin
queue_origins_lem max [] all = refl
queue_origins_lem max ((origin, []) ∷ origins) (here, all) = absurd (here refl)
queue_origins_lem max ((origin, p ∷ periods) ∷ origins) (here, all) =
    rw
      (
        queue_origins_lem max origins all,
        queue_periods_lem (suc max) 0 max origin (p ∷ periods) (omega arith),
      )
      refl

insert-ArePresent :
    (origin : String) (periods : List Time) (origins : Assoc (List Time))
    → IsPresent periods
    → ArePresent origins
    → ArePresent (insert origin periods origins)
unfolding insert
insert-ArePresent origin periods [] present all = (present, tt)
insert-ArePresent origin periods ((o, ps) ∷ origins) present (here, all) =
    elim (Bool-cases (str_eq o origin)) [
      | inl e ↦ rw e (present, all)
      | inr e ↦ rw e (here, insert-ArePresent origin periods origins present all)
    ]

added-IsPresent : (periods : List Time) (p : Time) → IsPresent (periods ++ p ∷ [])
added-IsPresent [] p e = cc
added-IsPresent (q ∷ periods) p e = cc

module _ {w : Foreign} (x : Outside w) where
  scan_all-ArePresent :
      (rows : List (Option (String × Time))) (result origins : Assoc (List Time))
      → ArePresent result
      → scan_all (add_period x.connection) rows result ≡ some origins
      → ArePresent origins
  unfolding scan_all
  scan_all-ArePresent [] result origins all e = subst ArePresent (some-injective _ _ e) all
  scan_all-ArePresent (none ∷ rows) result origins all e = cc
  scan_all-ArePresent (some (origin, p) ∷ rows) result origins all e =
      scan_all-ArePresent rows _ origins
        (insert-ArePresent origin _ result (added-IsPresent (or_empty (lookup origin result)) p)
          all)
        e

  read_rows-ArePresent :
      (rows : Rows (String × Time)) (origins : Assoc (List Time))
      → read_rows (add_period x.connection) [] rows ≡ some origins
      → ArePresent origins
  unfolding read_rows
  read_rows-ArePresent refused origins e = cc
  read_rows-ArePresent late origins e = cc
  read_rows-ArePresent (answered rows true) origins e = cc
  read_rows-ArePresent (answered rows false) origins e = scan_all-ArePresent rows [] origins tt e

  select_incomplete_periods-ArePresent :
      (db db' : x.connection.State) (origins : Assoc (List Time))
      → select_incomplete_periods x.connection db ≡ (some origins, db')
      → ArePresent origins
  unfolding select_incomplete_periods
  select_incomplete_periods-ArePresent db db' origins e =
      read_rows-ArePresent (x.connection.incomplete_periods db).0 origins (ap (λ r. r.0) e)

  -- If the incomplete periods can be read, sendDataRequests does not panic, though it reads the first
  -- period of each origin, and puts the periods of each origin on the channel in their order, up to
  -- one more than the maximum.
  pub send_data_requests-first :
      (max : ℕ) (s : World x) (origins : Assoc (List Time)) (db : x.connection.State)
      → select_incomplete_periods x.connection s.db ≡ (some origins, db)
      → send_data_requests x (pos max) s
        ≡ (ok (first_periods (suc max) origins), record s { db = db })
  unfolding send_data_requests on_periods
  send_data_requests-first max s origins db e =
      ap (λ r. on_periods x (pos max) r s) e
      ∙ ap (λ q. (q, record s { db = db }))
          (queue_origins_lem max origins (select_incomplete_periods-ArePresent s.db db origins e))

  on_counts_per_uuid-fails :
      (r : OriginPeriod) (a : Option (List (Uuid × ℤ)) × x.connection.State) (s : World x)
      → a.0 ≡ none
      → ((on_counts_per_uuid x r a s).0 ≡ false)
        × ((on_counts_per_uuid x r a s).1.published ≡ s.published)
  unfolding on_counts_per_uuid
  on_counts_per_uuid-fails r (none, db) s e = (refl, refl)
  on_counts_per_uuid-fails r (some counts, db) s e = cc

  module _
      (down : (origin : String) (p : Time) (db : x.connection.State)
        → (select_count_per_uuid x.connection origin p db).0 ≡ none) where
    handle_request-fails :
        (r : OriginPeriod) (s : World x)
        → ((handle_request x r s).0 ≡ false) × ((handle_request x r s).1.published ≡ s.published)
    unfolding handle_request
    handle_request-fails r s = on_counts_per_uuid-fails r _ s (down r.origin r.period s.db)

    -- If no count of the data points of an identifier can be read, every request that a worker takes
    -- ends that worker: there are as many workers less, the requests behind the first ones wait, one
    -- for each worker, and nothing is published.
    pub work_stops :
        (workers : ℕ) (requests : List OriginPeriod) (s : World x)
        → ((work x workers requests s).workers ≡ workers - length requests)
          × ((work x workers requests s).waiting ≡ drop workers requests)
          × ((work x workers requests s).world.published ≡ s.published)
    unfolding work
    work_stops zero [] s = (refl, refl, refl)
    work_stops (suc n) [] s = (omega arith, refl, refl)
    work_stops zero (r ∷ requests) s = (omega arith, refl, refl)
    work_stops (suc n) (r ∷ requests) s =
        let (ended, same) = handle_request-fails r s in
        let (left, waits, still) = work_stops n requests (handle_request x r s).1 in
        (
          rw (ended, work) (left ∙ omega arith),
          rw (ended, work) waits,
          rw (ended, work) (still ∙ same),
        )
