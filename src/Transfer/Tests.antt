-- ===== src/Transfer/Tests.antt =====
-- The theorems about transfer/ at a concrete receiver and origin.
use gosk.Prelude.{
  ℕ, ◌≡◌, refl, inl, false, String, List, [], ◌∷◌, ◌++◌, ◌+◌, length, drop, All, Any, some, none,
  ok, arith,
}
use gosk.Prelude.Int.{pos, ◌+ℤ◌, ◌-ℤ◌}
use gosk.Prelude.Table.{find}
use gosk.Message.Values.{int64}
use gosk.Message.Delta.{Time}
use gosk.Message.Samples.{sample, decoder, single}
use gosk.Database.Rows.{answered, refused, row, read_rows}
use gosk.Database.Queries.{
  Connection, Executed, select_incomplete_periods, select_first_mapped_data_per_origin,
  select_existing_remote_counts, select_count_mapped, select_count_per_uuid,
}
use gosk.Transfer.Messages.{
  RequestMessage, ResponseMessage, Logged, Json, period_duration, count_request_cool_down,
  request_topic, respond_topic,
}
use gosk.Transfer.Requester
use gosk.Transfer.Responder
use gosk.Transfer.Requester.{
  OriginPeriod, missing_periods, send_count_requests, send_count_requests_for, next_request,
  response_received,
}
use gosk.Transfer.Responder.{remove_complete, respond_with_data, request_received, count_answer}
use gosk.Transfer.DataRequests.{send_data_requests, work}
use gosk.Transfer.CountLaws.{period_at, IsDue, missing_periods-ends}
use gosk.Transfer.CountLiveness.{IsCountRequest, send_count_requests-asks}
use gosk.Transfer.CountRound.{stored, count_round}
use gosk.Transfer.DataLaws.{first_periods, send_data_requests-first, work_stops}
use gosk.Transfer.ResponderLaws.{Adds, lacking, find-remove_complete, respond_with_data-Adds}

abbrev done : Executed
done = record { has_failed = false; is_late = false }

-- A database that keeps the remote counts, and one in which no query for counts succeeds.
abbrev database : Connection sample Logged
database = record {
  State = List (Time × String);
  first_mapped_data_per_origin = λ db. (answered (some ("ship", pos 0) ∷ []) false, db);
  existing_remote_counts = λ from db. (answered [] false, db);
  incomplete_periods = λ db. (
    answered
        (some ("ship", pos 9)
          ∷ some ("barge", pos 8)
          ∷ some ("ship", pos 7)
          ∷ some ("ship", pos 6)
          ∷ [])
        false,
    db,
  );
  local_count = λ origin start db. (row (pos 7), db);
  mapped_count_per_uuid =
      λ origin start db. (answered (some (3, pos 2) ∷ some (4, pos 5) ∷ []) false, db);
  mapped_of_uuids = λ uuids start db.
      (answered (some (single (int64 (pos 1))) ∷ some (single (int64 (pos 2))) ∷ []) false, db);
  insert_or_update_remote_data = λ start origin count db. (done, (start, origin) ∷ db);
  log_transfer_insert = λ origin message db. (done, db);
}

abbrev broken : Connection sample Logged
broken = record database { mapped_count_per_uuid = λ origin start db. (refused, db) }

-- An encoding that carries one message.
abbrev carrying : {M : Type 0} → M → Json M
carrying message = record { marshal = λ m. some (1 ∷ []); unmarshal = λ bytes. some message }

abbrev question : RequestMessage
question = record { command = "count"; uuid = 10; period_start = pos 0; counts_per_uuid = [] }

abbrev reply : ResponseMessage
reply = record { command = "count"; uuid = 10; period_start = pos 0; data_points = pos 7 }

abbrev near : Connection sample Logged → Requester.Outside sample
near c = record {
  connection = c;
  request_json = carrying question;
  response_json = carrying reply;
  new_uuid = λ k. 10 + k;
}

abbrev far : Responder.Outside sample
far = record {
  connection = database;
  mapstructure = decoder;
  request_json = carrying question;
  response_json = carrying reply;
  delta_json = record { marshal = λ d. some (5 ∷ []); unmarshal = λ bytes. none };
  is_refused = λ k. false;
}

abbrev receiver : (c : Connection sample Logged) → c.State → Requester.World (near c)
receiver c db = record { db = db; published = []; made = 0 }

abbrev sender : Responder.World far
sender = record {
  db = [];
  published = [];
  sends = 0;
  sent = [];
  count_requests_received = 0;
  count_requests_handled = 0;
  data_requests_received = 0;
  data_requests_handled = 0;
  records_transmitted = 0;
  uuids_transmitted = 0;
}

abbrev now : Time
now = pos (count_request_cool_down + period_duration + 1)

missing_periods-ends_example :
    (out : List Time) × (missing_periods [] "ship" (λ j. now) 3 0 (pos 0) [] ≡ some out)
    × All (IsDue [] "ship" (λ j. now) now) out
unfolding ◌+ℤ◌ ◌-ℤ◌
missing_periods-ends_example =
    missing_periods-ends [] "ship" (λ j. now) 2 0 now (pos 0) [] (λ j. omega arith) (omega arith) tt

origins_found : select_first_mapped_data_per_origin database [] ≡ (some (("ship", pos 0) ∷ []), [])
unfolding select_first_mapped_data_per_origin read_rows gosk.Prelude.Assoc.insert
origins_found = refl

none_counted : (from : Time) → select_existing_remote_counts database from [] ≡ (some [], [])
unfolding select_existing_remote_counts read_rows
none_counted from = refl

send_count_requests-asks_example :
    (s' : Requester.World (near database)) × (send_count_requests
        (near database)
        now
        (λ o j. now)
        3
        (receiver database [])
      ≡ some s')
    × Any (IsCountRequest (near database) "ship" (period_at (pos 0) 1)) s'.published
unfolding ◌+ℤ◌ ◌-ℤ◌ gosk.Prelude.Assoc.lookup
send_count_requests-asks_example =
    send_count_requests-asks (near database) (receiver database []) [] [] (("ship", pos 0) ∷ []) []
      now (λ o j. now) 2 now now "ship" (pos 0) 1 (λ m. (1 ∷ [], refl)) origins_found
      (none_counted _) (λ o j. omega arith) (omega arith, tt) (inl refl) (λ j. omega arith)
      (refl, omega arith)

counted_here : select_count_mapped database "ship" (pos 0) [] ≡ (some (pos 7), [])
unfolding select_count_mapped
counted_here = refl

count_round_example :
    ((send_count_requests_for (near database) "ship" (pos 0 ∷ []) (receiver database [])).published
      ≡ [] ++ record { topic = request_topic "ship"; payload = 1 ∷ [] } ∷ [])
    × ((request_received far "ship"
          (record { topic = request_topic "ship"; payload = 1 ∷ [] })
          sender).published
        ≡ [] ++ record { topic = respond_topic "ship"; payload = 1 ∷ [] } ∷ [])
    × ((r : Requester.World (near database))
        → (response_received
            (near database)
            (record { topic = respond_topic "ship"; payload = 1 ∷ [] })
            r).db
          ≡ stored (near database) far "ship" (pos 0) (pos 7) reply r.db)
count_round_example =
    count_round (near database) far "ship" (pos 0) (receiver database []) sender (pos 7) []
      counted_here (1 ∷ [], refl, refl) (1 ∷ [], refl, refl)

periods_found :
    select_incomplete_periods database []
    ≡ (some (("ship", pos 9 ∷ pos 7 ∷ pos 6 ∷ []) ∷ ("barge", pos 8 ∷ []) ∷ []), [])
unfolding select_incomplete_periods read_rows gosk.Prelude.Assoc.insert gosk.Prelude.Assoc.lookup
periods_found = refl

-- With a maximum of one, two periods of the ship are asked for.
send_data_requests-first_test :
    send_data_requests (near database) (pos 1) (receiver database []) ≡ (
      ok (first_periods 2 (("ship", pos 9 ∷ pos 7 ∷ pos 6 ∷ []) ∷ ("barge", pos 8 ∷ []) ∷ [])),
      receiver database [],
    )
send_data_requests-first_test =
    send_data_requests-first (near database) 1 (receiver database [])
      (("ship", pos 9 ∷ pos 7 ∷ pos 6 ∷ []) ∷ ("barge", pos 8 ∷ []) ∷ []) [] periods_found

abbrev asked_periods : List OriginPeriod
asked_periods =
    record { origin = "ship"; period = pos 9 } ∷ record { origin = "ship"; period = pos 7 } ∷ []

no_counts :
    (origin : String) (p : Time) (db : List (Time × String))
    → (select_count_per_uuid broken origin p db).0 ≡ none
unfolding select_count_per_uuid read_rows
no_counts origin p db = refl

work_stops_example :
    ((work (near broken) 1 asked_periods (receiver broken [])).workers ≡ 0)
    × ((work (near broken) 1 asked_periods (receiver broken [])).waiting ≡ drop 1 asked_periods)
    × ((work (near broken) 1 asked_periods (receiver broken [])).world.published ≡ [])
work_stops_example = work_stops (near broken) no_counts 1 asked_periods (receiver broken [])

find-remove_complete_test :
    find gosk.Prelude.◌==◌ 4
      (remove_complete ((3, pos 2) ∷ (4, pos 1) ∷ []) ((3, pos 2) ∷ (4, pos 5) ∷ []))
    ≡ lacking
        (find gosk.Prelude.◌==◌ 4 ((3, pos 2) ∷ (4, pos 1) ∷ []))
        (find gosk.Prelude.◌==◌ 4 ((3, pos 2) ∷ (4, pos 5) ∷ []))
unfolding find
find-remove_complete_test =
    find-remove_complete ((3, pos 2) ∷ (4, pos 1) ∷ []) ((3, pos 2) ∷ (4, pos 5) ∷ []) 4
      (refl, (refl, tt))

respond_with_data-Adds_example :
    Adds far "ship" 10 sender (respond_with_data far "ship" question sender)
respond_with_data-Adds_example = respond_with_data-Adds far "ship" question sender

-- Both deltas are sent, under the identifier of the request.
two_sent : (respond_with_data far "ship" question sender).sent ≡ (5 ∷ []) ∷ (5 ∷ []) ∷ []
unfolding respond_with_data read_rows find gosk.Prelude.Table.put gosk.Database.MappedRows.of_row
    gosk.Message.Decoding.decode
two_sent = refl
