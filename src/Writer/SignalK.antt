-- ===== src/Writer/SignalK.antt =====
-- writer/signalk.go, signalk_http.go and signalk_ws.go: a cache of the data model, which requests wait
-- for, and the websocket clients. What the goroutines do is a sequence of steps. The router, the
-- websocket package and the JSON of an answer are input and output.
use gosk.Prelude.{
  ℕ, zero, suc, Bool, true, false, String, List, [], ◌∷◌, ◌++◌, length, get_elem?, Option, none,
  some, if◌then◌else◌,
}
use gosk.Prelude.Assoc.{Assoc, insert, delete}
use gosk.Message.Values.{Foreign}
use gosk.Message.Delta.{Mapped}
use gosk.Database.MessageCache.{ByteCache, CacheCodec, BigCache, write_mapped, read_mapped}

-- The handler of a client: its host, whether it still takes deltas, and those that it has taken. Its
-- channel is its place in the list.
pub record Peer (w : Foreign) : Type 0 where
  pub host : String
  pub is_serving : Bool
  pub deltas : List (Mapped w)

-- A goroutine of `updateWebsocket`, with the channels that it still has to send to: it waits for the
-- first one.
pub record Sending (w : Foreign) : Type 0 where
  pub delta : Mapped w
  pub waiting : List ℕ

pub data Step (w : Foreign) : Type 0 where
  -- what the query of `readFromDatabase` gives, and `none` for an error
  loaded : Option (List (Mapped w)) → Step w
  -- `updateFullDataModel` and `updateWebsocket` of a received delta
  stored : Mapped w → Step w
  updated : Mapped w → Step w
  -- a request for the data model
  requested : Step w
  -- `serveWebsocket` of a host, up to `addClient`
  accepted : String → Step w
  -- the goroutine at the place hands its delta to the first of its clients
  handed : ℕ → Step w
  -- a write to the client on the channel has failed
  left : ℕ → Step w

-- The values of the map: `getClients`.
abbrev pub get_clients : Assoc ℕ → List ℕ
get_clients [] = []
get_clients ((host, channel) ∷ clients) = channel ∷ get_clients clients

abbrev pub change_at {ℓ} : {A : Type ℓ} → ℕ → (A → A) → List A → List A
change_at i f [] = []
change_at zero f (x ∷ xs) = f x ∷ xs
change_at (suc i) f (x ∷ xs) = x ∷ change_at i f xs

module _ (cache : ByteCache) (w : Foreign) where
  -- `answers` are the data models that requests were given, `none` for not found. A request that
  -- waits for the first reading of the database stands in `waiting_requests`.
  pub record SignalKWriter : Type 0 where
    pub cached : BigCache cache
    pub is_loaded : Bool
    pub waiting_requests : ℕ
    pub answers : List (Option (List (Mapped w)))
    pub clients : Assoc ℕ
    pub peers : List (Peer w)
    pub updates : List (Sending w)

  abbrev pub new_signal_k_writer : BigCache cache → SignalKWriter
  new_signal_k_writer empty = record {
    cached = empty;
    is_loaded = false;
    waiting_requests = 0;
    answers = [];
    clients = [];
    peers = [];
    updates = [];
  }

  abbrev pub add_client : String → SignalKWriter → SignalKWriter
  add_client host s = record s {
    clients = insert host (length s.peers) s.clients;
    peers = s.peers ++ record { host = host; is_serving = true; deltas = [] } ∷ [];
  }

  -- `defer w.removeClient(client)`, behind which nobody takes from the channel.
  abbrev pub remove_client : ℕ → Option (Peer w) → SignalKWriter → SignalKWriter
  remove_client channel none s = s
  remove_client channel (some p) s =
      if p.is_serving
      then record s {
        clients = delete p.host s.clients;
        peers = change_at channel (λ p. record p { is_serving = false }) s.peers;
      }
      else s

  abbrev take_delta : ℕ → ℕ → List ℕ → Mapped w → SignalKWriter → SignalKWriter
  take_delta k channel rest delta s = record s {
    peers = change_at channel (λ p. record p { deltas = p.deltas ++ delta ∷ [] }) s.peers;
    updates = change_at k (λ u. record u { waiting = rest }) s.updates;
  }

  -- `c.deltas <- message` goes on only if the handler of the client takes it.
  abbrev pub if_serving :
      Option (Peer w) → ℕ → ℕ → List ℕ → Mapped w → SignalKWriter → SignalKWriter
  if_serving none k channel rest delta s = s
  if_serving (some p) k channel rest delta s =
      if p.is_serving then take_delta k channel rest delta s else s

  abbrev pub hand_over : ℕ → Option (Sending w) → SignalKWriter → SignalKWriter
  hand_over k none s = s
  hand_over k (some u) s = elim u.waiting [
    | [] ↦ s
    | channel ∷ rest ↦ if_serving (get_elem? s.peers channel) k channel rest u.delta s
  ]

  module _ (codec : CacheCodec w) where
    -- All requests that waited are answered after `wg.Done`.
    abbrev answer_all : ℕ → Option (List (Mapped w)) → List (Option (List (Mapped w)))
    answer_all zero answer = []
    answer_all (suc n) answer = answer ∷ answer_all n answer

    abbrev store : List (Mapped w) → BigCache cache → BigCache cache
    store deltas c = (write_mapped cache codec deltas c).0

    abbrev pub serve_full_data_model : SignalKWriter → SignalKWriter
    serve_full_data_model s =
        if s.is_loaded
        then record s { answers = s.answers ++ read_mapped cache codec s.cached ∷ [] }
        else record s { waiting_requests = suc s.waiting_requests }

    -- `readFromDatabase` returns on an error, without `wg.Done`.
    abbrev pub read_from_database : Option (List (Mapped w)) → SignalKWriter → SignalKWriter
    read_from_database none s = s
    read_from_database (some deltas) s =
        let c = store deltas s.cached in
        record s {
          cached = c;
          is_loaded = true;
          waiting_requests = 0;
          answers = s.answers ++ answer_all s.waiting_requests (read_mapped cache codec c);
        }

    unfoldable pub signal_k_step : Step w → SignalKWriter → SignalKWriter
    signal_k_step (loaded result) s = read_from_database result s
    signal_k_step (stored delta) s = record s { cached = store (delta ∷ []) s.cached }
    signal_k_step (updated delta) s = record s {
      updates = s.updates ++ record { delta = delta; waiting = get_clients s.clients } ∷ [];
    }
    signal_k_step requested s = serve_full_data_model s
    signal_k_step (accepted host) s = add_client host s
    signal_k_step (handed k) s = hand_over k (get_elem? s.updates k) s
    signal_k_step (left channel) s = remove_client channel (get_elem? s.peers channel) s

    unfoldable pub run_steps : List (Step w) → SignalKWriter → SignalKWriter
    unfolding signal_k_step
    run_steps [] s = s
    run_steps (step ∷ steps) s = run_steps steps (signal_k_step step s)
