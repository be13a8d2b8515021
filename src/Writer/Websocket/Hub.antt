-- ===== src/Writer/Websocket/Hub.antt =====
-- writer/websocket.go, `run`: the one goroutine that owns the map of clients and the cache. Each
-- round of its `select` is a step. What the peers do in between is an argument of the step: the
-- clients whose send buffer is full when a delta is broadcast. JSON encoding is left out, so a
-- message is what it encodes.
use gosk.Prelude.{
  ℕ, Bool, true, false, ◌==◌, String, List, [], ◌∷◌, ◌++◌, if◌then◌else◌, Outcome, ok, panic, ◌>>=◌,
}
use gosk.Message.Values.{Foreign}
use gosk.Message.Delta.{Mapped}
use gosk.Writer.Websocket.Subscriptions.{
  Client, SubscribeMessage, handle_subscribe_messages, is_subscribed_to,
}
use gosk.Writer.Websocket.Cache.{Cache, inject_or_update, retrieve_all}

-- What the hub puts into a client's channel.
pub data Message (w : Foreign) : Type 0 where
  hello : String → Message w
  delta : Mapped w → Message w

-- A connection with its channel: all that was ever put into it, whether it is open, and whether the
-- client stands in the map `clients`.
pub record Connection (w : Foreign) : Type 0 where
  pub id : ℕ
  pub client : Client
  pub sent : List (Message w)
  pub is_open : Bool
  pub is_registered : Bool

pub record Hub (w : Foreign) : Type 0 where
  pub self : String
  pub connections : List (Connection w)
  pub cache : Cache w

pub data Event (w : Foreign) : Type 0 where
  -- `serveWs` has made a client with its first subscription
  connect : ℕ → Client → Event w
  register : ℕ → Event w
  unregister : ℕ → Event w
  -- the delta, and the clients that do not take it at once
  broadcast : Mapped w → (ℕ → Bool) → Event w
  -- `readPump` has read a message of the client
  subscribe : ℕ → SubscribeMessage → Event w

-- A handler ends or panics: no error value comes back from any of them.
abbrev pub Ran : Type 0 → Type 0
Ran = Outcome (Unit {0})

module _ {w : Foreign} where
  -- A send on a closed channel panics, and so does closing it again.
  unfoldable pub send : Message w → Connection w → Ran (Connection w)
  send m c = if c.is_open then ok (record c { sent = c.sent ++ m ∷ [] }) else panic

  unfoldable pub send_all : List (Message w) → Connection w → Ran (Connection w)
  send_all [] c = ok c
  send_all (m ∷ rest) c = do c' ← send m c; send_all rest c'

  -- `close(client.send)` and `delete(w.clients, client)`, which stand together.
  unfoldable pub close : Connection w → Ran (Connection w)
  close c = if c.is_open then ok (record c { is_open = false; is_registered = false }) else panic

  abbrev pub deltas : List (Mapped w) → List (Message w)
  deltas [] = []
  deltas (m ∷ rest) = delta m ∷ deltas rest

  -- `case client := <-w.register`: the sends wait until the client takes them.
  unfoldable pub on_register : Hub w → Connection w → Ran (Connection w)
  on_register h c =
      send_all (hello h.self ∷ deltas (retrieve_all h.cache)) (record c { is_registered = true })

  -- `case client := <-w.unregister`
  unfoldable pub on_unregister : Connection w → Ran (Connection w)
  on_unregister c = if c.is_registered then close c else ok c

  -- `case delta := <-w.broadcast`, for one client: a client whose buffer is full is dropped.
  unfoldable pub on_broadcast : Mapped w → (ℕ → Bool) → Connection w → Ran (Connection w)
  on_broadcast m is_full c =
      if c.is_registered
      then if is_subscribed_to c.client m
        then if is_full c.id then close c else send (delta m) c
        else ok c
      else ok c

  -- Runs a handler on the connection with the id, or on all of them.
  unfoldable pub at_id :
      ℕ → (Connection w → Ran (Connection w)) → List (Connection w) → Ran (List (Connection w))
  at_id i f [] = ok []
  at_id i f (c ∷ cs) = do c' ← if c.id == i then f c else ok c; cs' ← at_id i f cs; ok (c' ∷ cs')

  unfoldable pub at_all :
      (Connection w → Ran (Connection w)) → List (Connection w) → Ran (List (Connection w))
  at_all f [] = ok []
  at_all f (c ∷ cs) = do c' ← f c; cs' ← at_all f cs; ok (c' ∷ cs')

  unfoldable pub hub_step : Hub w → Event w → Ran (Hub w)
  hub_step h (connect i client) = ok (record h {
    connections =
        record { id = i; client = client; sent = []; is_open = true; is_registered = false }
        ∷ h.connections;
  })
  hub_step h (register i) = do
    cs ← at_id i (on_register h) h.connections
    ok (record h { connections = cs })
  hub_step h (unregister i) = do
    cs ← at_id i on_unregister h.connections
    ok (record h { connections = cs })
  hub_step h (broadcast m is_full) = do
    cs ← at_all (on_broadcast m is_full) h.connections
    ok (record h { connections = cs; cache = inject_or_update h.cache m })
  hub_step h (subscribe i m) = do
    cs ←
        at_id i (λ c. ok (record c { client = handle_subscribe_messages c.client m })) h.connections
    ok (record h { connections = cs })

  unfoldable pub run : Hub w → List (Event w) → Ran (Hub w)
  run h [] = ok h
  run h (e ∷ events) = do h' ← hub_step h e; run h' events
