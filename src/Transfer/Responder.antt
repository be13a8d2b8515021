-- ===== src/Transfer/Responder.antt =====
-- transfer/respond.go: an origin says how many data points it has, and sends those that the
-- receiver lacks once more.
use gosk.Prelude.{
  ℕ, suc, ◌+◌, ◌==◌, Bool, String, str_eq, List, [], ◌∷◌, ◌++◌, length, replicate, Option, none,
  some, map, if◌then◌else◌,
}
use gosk.Prelude.Int.{ℤ, leb_ℤ}
use gosk.Prelude.Table.{find, remove, keys}
use gosk.Message.Values.{Foreign}
use gosk.Message.Delta.{Time, Uuid, Update, Mapped}
use gosk.Message.Decoding.{Mapstructure}
use gosk.Database.Queries.{Connection, select_count_mapped, select_count_per_uuid}
use gosk.Database.MappedRows.{read_mapped}
use gosk.Transfer.Messages.{
  RequestMessage, ResponseMessage, Logged, Json, Publication, Bytes, count_cmd, data_cmd,
  respond_topic,
}

-- What the responder calls: the database, mapstructure, the encodings, and the socket of the bus,
-- which refuses the k-th message if `is_refused k`.
pub record Outside (w : Foreign) : Type 1 where
  pub connection : Connection w Logged
  pub mapstructure : Mapstructure w
  pub request_json : Json RequestMessage
  pub response_json : Json ResponseMessage
  pub delta_json : Json (Mapped w)
  pub is_refused : ℕ → Bool

-- The database, what was published, the deltas that were handed to the bus, and the five counters.
pub record World {w : Foreign} (x : Outside w) : Type 0 where
  pub db : x.connection.State
  pub published : List Publication
  pub sends : ℕ
  pub sent : List Bytes
  pub count_requests_received : ℕ
  pub count_requests_handled : ℕ
  pub data_requests_received : ℕ
  pub data_requests_handled : ℕ
  pub records_transmitted : ℕ
  pub uuids_transmitted : ℕ

-- `delete` the identifiers of which the receiver has as many data points.
unfoldable pub remove_complete : List (Uuid × ℤ) → List (Uuid × ℤ) → List (Uuid × ℤ)
remove_complete [] counts = counts
remove_complete ((uuid, count) ∷ remote) counts =
    remove_complete remote (elim (find ◌==◌ uuid counts) [
      | none ↦ counts
      | some here ↦ if leb_ℤ here count then remove ◌==◌ uuid counts else counts
    ])

-- `make([]uuid.UUID, n)` holds n zero identifiers, and `append` adds behind them.
unfoldable pub uuids_of : List (Uuid × ℤ) → List Uuid
uuids_of counts = replicate (length counts) 0 ++ keys ◌==◌ counts

abbrev pub with_transfer : {w : Foreign} → Uuid → Update w → Update w
with_transfer uuid u = record u { source = record (u.source) { transfer_uuid = uuid } }

unfoldable pub mark : {w : Foreign} → Uuid → Mapped w → Mapped w
mark uuid delta = record delta { updates = map (with_transfer uuid) delta.updates }

module _ {w : Foreign} (x : Outside w) (own_origin : String) where
  -- `json.Marshal` and `Send`, with what each failure leaves out.
  unfoldable pub send_delta : Uuid → Mapped w → World x → World x
  unfolding mark
  send_delta uuid delta s = elim (x.delta_json.marshal (mark uuid delta)) [
    | none ↦ s
    | some bytes ↦ if x.is_refused s.sends then record s { sends = suc s.sends } else record s {
      sends = suc s.sends;
      sent = s.sent ++ bytes ∷ [];
      records_transmitted = suc s.records_transmitted;
    }
  ]

  unfoldable pub send_deltas : Uuid → List (Mapped w) → World x → World x
  unfolding send_delta
  send_deltas uuid [] s = s
  send_deltas uuid (d ∷ deltas) s = send_deltas uuid deltas (send_delta uuid d s)

  -- The test of `err` behind each query, with what is done with its answer.
  unfoldable pub on_deltas :
      Uuid → Option (List (Mapped w)) × x.connection.State → World x → World x
  unfolding send_deltas
  on_deltas uuid (none, db) s = record s { db = db }
  on_deltas uuid (some deltas, db) s = send_deltas uuid deltas (record s { db = db })

  unfoldable pub inject_data : List (Uuid × ℤ) → Uuid → Time → World x → World x
  unfolding uuids_of read_mapped on_deltas
  inject_data counts uuid period s =
      on_deltas uuid
        (read_mapped x.connection x.mapstructure
          (x.connection.mapped_of_uuids (uuids_of counts) period) s.db)
        s

  unfoldable pub on_local_counts :
      RequestMessage → Option (List (Uuid × ℤ)) × x.connection.State → World x → World x
  unfolding remove_complete inject_data
  on_local_counts request (none, db) s = record s { db = db }
  on_local_counts request (some local, db) s =
      let left = remove_complete request.counts_per_uuid local in
      let s' = inject_data left request.uuid request.period_start (record s { db = db }) in
      record s' {
        uuids_transmitted = s'.uuids_transmitted + length left;
        data_requests_handled = suc s'.data_requests_handled;
      }

  unfoldable pub respond_with_data : RequestMessage → World x → World x
  unfolding select_count_per_uuid on_local_counts
  respond_with_data request s =
      on_local_counts request
        (select_count_per_uuid x.connection own_origin request.period_start s.db) s

  abbrev pub count_answer : RequestMessage → ℤ → ResponseMessage
  count_answer request count = record {
    command = count_cmd;
    uuid = request.uuid;
    period_start = request.period_start;
    data_points = count;
  }

  unfoldable pub on_count : RequestMessage → Option ℤ × x.connection.State → World x → World x
  unfolding respond_topic
  on_count request (none, db) s = record s { db = db }
  on_count request (some count, db) s =
      elim (x.response_json.marshal (count_answer request count)) [
        | none ↦ record s { db = db }
        | some bytes ↦ record s {
          db = db;
          published =
              s.published ++ record { topic = respond_topic own_origin; payload = bytes } ∷ [];
          count_requests_handled = suc s.count_requests_handled;
        }
      ]

  unfoldable pub respond_with_count : RequestMessage → World x → World x
  unfolding select_count_mapped on_count
  respond_with_count request s =
      on_count request (select_count_mapped x.connection own_origin request.period_start s.db) s

  -- The switch on the command of a request.
  unfoldable pub dispatch : String → RequestMessage → World x → World x
  unfolding respond_with_count respond_with_data
  dispatch command request s =
      if str_eq command count_cmd
      then respond_with_count request
          (record s { count_requests_received = suc s.count_requests_received })
      else if str_eq command data_cmd
      then respond_with_data request
          (record s { data_requests_received = suc s.data_requests_received })
      else s

  -- `messageReceived` of the responder.
  unfoldable pub request_received : Publication → World x → World x
  unfolding dispatch
  request_received m s = elim (x.request_json.unmarshal m.payload) [
    | none ↦ s
    | some request ↦ dispatch request.command request s
  ]
