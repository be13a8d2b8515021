-- ===== src/Writer/Websocket/HubLaws.antt =====
-- The hub of writer/websocket.go never sends on a closed channel and never closes one twice.
use gosk.Prelude.{
  ℕ, ◌≡◌, refl, Bool, true, false, ◌||◌, ◌==◌, ==_iff, Bool-cases, inl, inr, List, [], ◌∷◌, ◌++◌,
  All, ok,
}
use gosk.Message.Values.{Foreign}
use gosk.Message.Delta.{Mapped}
use gosk.Writer.Websocket.Subscriptions.{is_subscribed_to, handle_subscribe_messages}
use gosk.Writer.Websocket.Cache.{retrieve_all, inject_or_update}
use gosk.Writer.Websocket.Hub.{
  Message, hello, delta, Connection, Hub, Event, connect, register, unregister, broadcast,
  subscribe, Ran, send, send_all, close, deltas, on_register, on_unregister, on_broadcast, at_id,
  at_all, hub_step, run,
}

abbrev pub member : ℕ → List ℕ → Bool
member i [] = false
member i (j ∷ seen) = i == j || member i seen

-- A call that ends, without a panic, in a value with the property.
abbrev pub Runs : {A : Type 0} → Ran A → (A → Type 0) → Type 0
Runs {A} r Q = (a : A) × (r ≡ ok a) × Q a

module _ {w : Foreign} where
  -- `serveWs` registers each client that it makes once: no id is registered a second time.
  abbrev pub RegistersOnce : List ℕ → List (Event w) → Type 0
  RegistersOnce seen [] = Unit
  RegistersOnce seen (register i ∷ events) =
      (member i seen ≡ false) × RegistersOnce (i ∷ seen) events
  RegistersOnce seen (e ∷ events) = RegistersOnce seen events

  -- A client in the map has an open channel, and so has one that was not yet registered.
  pub record IsLive (seen : List ℕ) (c : Connection w) : Type 0 where
    pub registered : c.is_registered ≡ true → (c.is_open ≡ true) × (member c.id seen ≡ true)
    pub waiting : member c.id seen ≡ false → c.is_open ≡ true

  send_open :
      (m : Message w) (c : Connection w)
      → c.is_open ≡ true
      → send m c ≡ ok (record c { sent = c.sent ++ m ∷ [] })
  unfolding send
  send_open m c h = rw h

  close_open :
      (c : Connection w)
      → c.is_open ≡ true
      → close c ≡ ok (record c { is_open = false; is_registered = false })
  unfolding close
  close_open c h = rw h

  send_all_open :
      (messages : List (Message w)) (c : Connection w)
      → c.is_open ≡ true
      → Runs (send_all messages c) (λ c'. (c'.is_open ≡ true) × (c'.id ≡ c.id))
  unfolding send_all
  send_all_open [] c h = (c, refl, (h, refl))
  send_all_open (m ∷ rest) c h =
      let (c', e, kept) = send_all_open rest (record c { sent = c.sent ++ m ∷ [] }) h in
      (c', rw (send_open m c h) e, kept)

  at_all_runs :
      (P Q : Connection w → Type 0) (f : Connection w → Ran (Connection w))
      → ((c : Connection w) → P c → Runs (f c) Q)
      → (cs : List (Connection w)) → All P cs
      → Runs (at_all f cs) (All Q)
  unfolding at_all
  at_all_runs P Q f step [] h = ([], refl, tt)
  at_all_runs P Q f step (c ∷ cs) (here, later) =
      let (c', e, q) = step c here in
      let (cs', es, qs) = at_all_runs P Q f step cs later in (c' ∷ cs', rw (e, es) refl, (q, qs))

  at_id_runs :
      (P Q : Connection w → Type 0) (i : ℕ) (f : Connection w → Ran (Connection w))
      → ((c : Connection w) → (c.id == i) ≡ true → P c → Runs (f c) Q)
      → ((c : Connection w) → (c.id == i) ≡ false → P c → Q c)
      → (cs : List (Connection w)) → All P cs
      → Runs (at_id i f cs) (All Q)
  unfolding at_id
  at_id_runs P Q i f step other [] h = ([], refl, tt)
  at_id_runs P Q i f step other (c ∷ cs) (here, later) =
      let (cs', es, qs) = at_id_runs P Q i f step other cs later in
      elim (Bool-cases (c.id == i)) [
        | inl e ↦ let (c', m, q) = step c e here in (c' ∷ cs', rw e (rw (m, es) refl), (q, qs))
        | inr e ↦ (c ∷ cs', rw e (rw es refl), (other c e here, qs))
      ]

  seen_more :
      (seen : List ℕ) (i : ℕ) (c : Connection w)
      → (c.id == i) ≡ false
      → IsLive seen c
      → IsLive (i ∷ seen) c
  seen_more seen i c other live = record {
    registered = λ r. let (open', known) = live.registered r in (open', rw other known);
    waiting = λ n. live.waiting (rw other at n);
  }

  on_register-IsLive :
      (h : Hub w) (seen : List ℕ) (i : ℕ)
      → member i seen ≡ false
      → (c : Connection w) → (c.id == i) ≡ true
      → IsLive seen c
      → Runs (on_register h c) (IsLive (i ∷ seen))
  unfolding on_register
  on_register-IsLive h seen i new c same live =
      let is_open : c.is_open ≡ true = live.waiting (rw (← (==_iff c.id i).0 same) at new) in
      let (c', e, (open', id)) =
        send_all_open (hello h.self ∷ deltas (retrieve_all h.cache))
          (record c { is_registered = true }) is_open in
      (c', e, record { registered = λ r. (open', rw id (rw same refl)); waiting = λ r. open' })

  closed-IsLive :
      (seen : List ℕ) (c : Connection w)
      → c.is_registered ≡ true
      → IsLive seen c
      → Runs (close c) (IsLive seen)
  closed-IsLive seen c e live =
      let (open', known) = live.registered e in
      (
        record c { is_open = false; is_registered = false },
        close_open c open',
        record { registered = λ r. cc; waiting = λ n. cc },
      )

  on_unregister-IsLive :
      (seen : List ℕ) (c : Connection w) → IsLive seen c → Runs (on_unregister c) (IsLive seen)
  unfolding on_unregister
  on_unregister-IsLive seen c live = elim (Bool-cases c.is_registered) [
    | inl e ↦ simp e (closed-IsLive seen c e live)
    | inr e ↦ (c, rw e refl, live)
  ]

  on_broadcast-IsLive :
      (m : Mapped w) (is_full : ℕ → Bool) (seen : List ℕ) (c : Connection w)
      → IsLive seen c
      → Runs (on_broadcast m is_full c) (IsLive seen)
  unfolding on_broadcast
  on_broadcast-IsLive m is_full seen c live = elim (Bool-cases c.is_registered) [
    | inl e ↦ elim (Bool-cases (is_subscribed_to c.client m)) [
      | inl s ↦ elim (Bool-cases (is_full c.id)) [
        | inl f ↦ simp (e, s, f) (closed-IsLive seen c e live)
        | inr f ↦
            simp (e, s, f)
              (
                record c { sent = c.sent ++ delta m ∷ [] },
                send_open (delta m) c (live.registered e).0,
                record { registered = live.registered; waiting = live.waiting },
              )
      ]
      | inr s ↦ (c, rw (e, s) refl, live)
    ]
    | inr e ↦ (c, rw e refl, live)
  ]

  abbrev pub seen_after : List ℕ → Event w → List ℕ
  seen_after seen (register i) = i ∷ seen
  seen_after seen e = seen

  abbrev pub IsNew : List ℕ → Event w → Type 0
  IsNew seen (register i) = member i seen ≡ false
  IsNew seen e = Unit

  pub hub_step-IsLive :
      (h : Hub w) (seen : List ℕ) (e : Event w)
      → IsNew seen e
      → All (IsLive seen) h.connections
      → Runs (hub_step h e) (λ h'. All (IsLive (seen_after seen e)) h'.connections)
  unfolding hub_step
  hub_step-IsLive h seen (connect i client) new live =
      (_, refl, (record { registered = λ r. cc; waiting = λ n. refl }, live))
  hub_step-IsLive h seen (register i) new live =
      let (cs, e, kept) =
        at_id_runs (IsLive seen) (IsLive (i ∷ seen)) i (on_register h)
          (on_register-IsLive h seen i new) (seen_more seen i) h.connections live in
      (record h { connections = cs }, rw e refl, kept)
  hub_step-IsLive h seen (unregister i) new live =
      let (cs, e, kept) =
        at_id_runs (IsLive seen) (IsLive seen) i on_unregister
          (λ c same. on_unregister-IsLive seen c) (λ c other l. l) h.connections live in
      (record h { connections = cs }, rw e refl, kept)
  hub_step-IsLive h seen (broadcast m is_full) new live =
      let (cs, e, kept) =
        at_all_runs (IsLive seen) (IsLive seen) (on_broadcast m is_full)
          (on_broadcast-IsLive m is_full seen) h.connections live in
      (record h { connections = cs; cache = inject_or_update h.cache m }, rw e refl, kept)
  hub_step-IsLive h seen (subscribe i m) new live =
      let (cs, e, kept) =
        at_id_runs (IsLive seen) (IsLive seen) i
          (λ c. ok (record c { client = handle_subscribe_messages c.client m }))
          (λ c same l. (_, refl, record { registered = l.registered; waiting = l.waiting }))
          (λ c other l. l) h.connections live in
      (record h { connections = cs }, rw e refl, kept)

  RegistersOnce-step :
      (seen : List ℕ) (e : Event w) (events : List (Event w))
      → RegistersOnce seen (e ∷ events)
      → IsNew seen e × RegistersOnce (seen_after seen e) events
  RegistersOnce-step seen (register i) events h = h
  RegistersOnce-step seen _ events h = (tt, h)

  run-IsLive :
      (events : List (Event w)) (h : Hub w) (seen : List ℕ)
      → RegistersOnce seen events
      → All (IsLive seen) h.connections
      → (h' : Hub w) × (run h events ≡ ok h')
  unfolding run
  run-IsLive [] h seen once live = (h, refl)
  run-IsLive (e ∷ events) h seen once live =
      let (new, later) = RegistersOnce-step seen e events once in
      let (h', step, live') = hub_step-IsLive h seen e new live in
      let (end, rest) = run-IsLive events h' (seen_after seen e) later live' in (end, rw step rest)

  -- From a hub with no connections, and for every order of events in which no client is registered
  -- twice, whatever the peers' buffers do, the hub runs to the end: it never sends on a closed
  -- channel and never closes one a second time.
  pub run_total :
      (h : Hub w) (events : List (Event w))
      → h.connections ≡ []
      → RegistersOnce [] events
      → (h' : Hub w) × (run h events ≡ ok h')
  run_total h events none_yet once = run-IsLive events h [] once (rw none_yet tt)
