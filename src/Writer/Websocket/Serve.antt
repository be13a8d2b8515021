-- ===== src/Writer/Websocket/Serve.antt =====
-- writer/websocket.go around the hub: `serveWs`, which makes a client, `readPump` and `writePump` of each
-- client, and `receive`, which reads deltas from the message bus.
use gosk.Prelude.{
  ℕ, Bool, String, str_eq, List, [], ◌∷◌, if◌then◌else◌, Option, none, some, ok, panic, ◌>>=◌,
}
use gosk.Message.Values.{Foreign}
use gosk.Message.Delta.{Mapped}
use gosk.Writer.Websocket.Subscriptions.{Client, SubscribeMessage, handle_subscribe_messages}
use gosk.Writer.Websocket.Hub.{
  Hub, Event, connect, register, unregister, broadcast, subscribe, Ran, run,
}

abbrev Bytes : Type 0
Bytes = List ℕ

-- `json.Unmarshal(bytes, target)` into a delta: `none` for an error, and else what `target` then
-- points to. A nil pointer is `none`.
pub record Unmarshal (w : Foreign) : Type 0 where
  pub into : Bytes → Option (Mapped w) → Option (Mapped w)

-- `serveWs` leaves the field `self` of the client empty.
abbrev pub new_client : Client
new_client = record { subscriptions = none; self = "" }

abbrev pub all_paths : String → SubscribeMessage
all_paths context = record { context = context; subscribe = "*" ∷ []; unsubscribe = [] }

-- The client of a request, by the query parameter `subscribe`, which is empty if it is missing.
unfoldable pub serve_ws : String → String → Client
serve_ws self parameter =
    if str_eq parameter "none"
    then new_client
    else handle_subscribe_messages new_client
        (all_paths (if str_eq parameter "all" then "*" else self))

-- What a read of the connection gives: an error, or a message that may be unreadable.
pub data Reading : Type 0 where
  failed : Reading
  unreadable : Reading
  readable : SubscribeMessage → Reading

-- What a round of `writePump` finds: a message of the hub, which may fail to be written, a closed
-- channel, or a ping, which may fail.
pub data Writing : Type 0 where
  message_sent message_failed : Writing
  channel_closed : Writing
  ping_sent ping_failed : Writing

pub data Input : Type 0 where
  -- a request that could be upgraded, with its query parameter
  request : ℕ → String → Input
  read : ℕ → Reading → Input
  written : ℕ → Writing → Input
  -- what `Recv` gives, and the clients that do not take the delta at once
  received : Option Bytes → (ℕ → Bool) → Input

module _ {w : Foreign} where
  unfoldable pub serve_events : String → ℕ → String → List (Event w)
  serve_events self i parameter = connect i (serve_ws self parameter) ∷ register i ∷ []

  -- A round of `readPump`: after an error its deferred function unregisters the client.
  unfoldable pub read_pump : ℕ → Reading → List (Event w)
  read_pump i failed = unregister i ∷ []
  read_pump i unreadable = []
  read_pump i (readable m) = subscribe i m ∷ []

  -- A round of `writePump`, which goes on after a failed write, and ends at a failed ping.
  unfoldable pub write_pump : ℕ → Writing → List (Event w)
  write_pump i message_sent = []
  write_pump i message_failed = []
  write_pump i channel_closed = unregister i ∷ []
  write_pump i ping_sent = []
  write_pump i ping_failed = unregister i ∷ []

  module _ (json : Unmarshal w) where
    -- `*mapped` behind `json.Unmarshal`, which does not change the pointer.
    abbrev pub dereferenced : Option (Mapped w) → Mapped w → (ℕ → Bool) → Ran (List (Event w))
    dereferenced none new is_full = panic
    dereferenced (some old) new is_full = ok (broadcast new is_full ∷ [])

    -- A round of `receive`, with what the variable `mapped` points to.
    unfoldable pub receive_round :
        Option (Mapped w) → Option Bytes → (ℕ → Bool) → Ran (List (Event w))
    receive_round mapped none is_full = ok []
    receive_round mapped (some bytes) is_full = elim (json.into bytes mapped) [
      | none ↦ ok []
      | some new ↦ dereferenced mapped new is_full
    ]

    -- `var mapped *message.Mapped` is nil, and is never set.
    unfoldable pub events_of : String → Input → Ran (List (Event w))
    unfolding serve_events read_pump write_pump receive_round
    events_of self (request i parameter) = ok (serve_events self i parameter)
    events_of self (read i r) = ok (read_pump i r)
    events_of self (written i r) = ok (write_pump i r)
    events_of self (received bytes is_full) = receive_round none bytes is_full

    -- `WriteMapped`: the goroutines, in the order in which the hub hears of them.
    unfoldable pub write_mapped : List Input → Hub w → Ran (Hub w)
    unfolding events_of
    write_mapped [] h = ok h
    write_mapped (input ∷ inputs) h = do
      events ← events_of h.self input
      h' ← run h events
      write_mapped inputs h'

  abbrev pub new_websocket_writer : String → Hub w
  new_websocket_writer self = record { self = self; connections = []; cache = none }
