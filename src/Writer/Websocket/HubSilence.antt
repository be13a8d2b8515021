-- ===== src/Writer/Websocket/HubSilence.antt =====
-- The hub of writer/websocket.go without broadcasts: what its clients are sent, and what it keeps.
use gosk.Prelude.{
  ℕ, ◌≡◌, refl, sym, ap, ◌∙◌, Bool, true, ◌==◌, Bool-cases, ok_inj, if◌then◌else◌, bind_ok, inl,
  inr, List, [], ◌∷◌, ◌++◌, All, All-append, none, ok, ◌>>=◌, arith,
}
use mathlib.Core.Path.{subst}
use gosk.Message.Values.{Foreign}
use gosk.Writer.Websocket.Subscriptions.{handle_subscribe_messages}
use gosk.Writer.Websocket.Cache.{Cache, retrieve_all}
use gosk.Writer.Websocket.Hub.{
  Message, hello, delta, Connection, Hub, Event, connect, register, unregister, broadcast,
  subscribe, Ran, send, send_all, close, deltas, on_register, on_unregister, at_id, hub_step, run,
}
use gosk.Writer.Websocket.HubLaws.{Runs, IsLive, IsNew, seen_after, hub_step-IsLive}

module _ {w : Foreign} where
  -- All but deltas.
  abbrev pub IsHello : Message w → Type 0
  IsHello (hello self) = Unit
  IsHello (delta m) = ⊥

  abbrev pub IsGreeted : Connection w → Type 0
  IsGreeted c = All IsHello c.sent

  -- No delta was ever put into a client's channel, and none is in the cache.
  pub record IsSilent (h : Hub w) : Type 0 where
    pub greeted : All IsGreeted h.connections
    pub no_cache : h.cache ≡ none

  abbrev pub IsPeer : Event w → Type 0
  IsPeer (broadcast m is_full) = ⊥
  IsPeer e = Unit

  at_id-All :
      (i : ℕ) (f : Connection w → Ran (Connection w)) (cs cs' : List (Connection w))
      → ((c c' : Connection w) → IsGreeted c → f c ≡ ok c' → IsGreeted c')
      → All IsGreeted cs
      → at_id i f cs ≡ ok cs'
      → All IsGreeted cs'
  unfolding at_id
  at_id-All i f [] cs' keeps all e = subst (All IsGreeted) (ok_inj e) all
  at_id-All i f (c ∷ cs) cs' keeps (here, all) e =
      let (c1, first, e1) =
        bind_ok (if c.id == i then f c else ok c) (λ c1. at_id i f cs >>= λ cs1. ok (c1 ∷ cs1)) e in
      let (cs1, rest, e2) = bind_ok (at_id i f cs) (λ cs1. ok (c1 ∷ cs1)) e1 in
      let kept : IsGreeted c1 = elim (Bool-cases (c.id == i)) [
        | inl hit ↦ keeps c c1 here (sym (ap (λ (b : Bool). if b then f c else ok c) hit) ∙ first)
        | inr miss ↦
            subst IsGreeted (ok_inj (sym (ap (λ (b : Bool). if b then f c else ok c) miss) ∙ first))
              here
      ] in
      subst (All IsGreeted) (ok_inj e2) (kept, at_id-All i f cs cs1 keeps all rest)

  greet : Hub w → Connection w → Cache w → Ran (Connection w)
  greet h c cache =
      send_all (hello h.self ∷ deltas (retrieve_all cache)) (record c { is_registered = true })

  greet-sent :
      (h : Hub w) (c c' : Connection w)
      → greet h c none ≡ ok c'
      → c'.sent ≡ c.sent ++ hello h.self ∷ []
  unfolding greet send_all send retrieve_all
  greet-sent h c c' e = ground arith

  on_register-IsGreeted :
      (h : Hub w) (c c' : Connection w)
      → h.cache ≡ none
      → IsGreeted c
      → on_register h c ≡ ok c'
      → IsGreeted c'
  unfolding on_register greet
  on_register-IsGreeted h c c' empty all e =
      subst (All IsHello) (sym (greet-sent h c c' (sym (ap (greet h c) empty) ∙ e)))
        (All-append IsHello c.sent (hello h.self ∷ []) all (tt, tt))

  on_unregister-sent : (c c' : Connection w) → on_unregister c ≡ ok c' → c'.sent ≡ c.sent
  unfolding on_unregister close
  on_unregister-sent c c' e = ground arith

  at_connections :
      (i : ℕ) (f : Connection w → Ran (Connection w)) (h h' : Hub w)
      → ((c c' : Connection w) → IsGreeted c → f c ≡ ok c' → IsGreeted c')
      → IsSilent h
      → (at_id i f h.connections >>= λ cs. ok (record h { connections = cs })) ≡ ok h'
      → IsSilent h'
  at_connections i f h h' keeps s e =
      let (cs, here, e1) =
        bind_ok (at_id i f h.connections) (λ cs. ok (record h { connections = cs })) e in
      subst IsSilent (ok_inj e1) (record {
        greeted = at_id-All i f h.connections cs keeps s.greeted here;
        no_cache = s.no_cache;
      })

  hub_step-IsSilent :
      (h h' : Hub w) (e : Event w) → IsPeer e → IsSilent h → hub_step h e ≡ ok h' → IsSilent h'
  unfolding hub_step
  hub_step-IsSilent h h' (connect i client) peer s e =
      subst IsSilent (ok_inj e) (record { greeted = (tt, s.greeted); no_cache = s.no_cache })
  hub_step-IsSilent h h' (register i) peer s e =
      at_connections i (on_register h) h h'
        (λ c c' all e. on_register-IsGreeted h c c' s.no_cache all e) s e
  hub_step-IsSilent h h' (unregister i) peer s e =
      at_connections i on_unregister h h'
        (λ c c' all e. subst (All IsHello) (sym (on_unregister-sent c c' e)) all) s e
  hub_step-IsSilent h h' (broadcast m is_full) peer s e = absurd peer
  hub_step-IsSilent h h' (subscribe i m) peer s e =
      at_connections i (λ c. ok (record c { client = handle_subscribe_messages c.client m })) h h'
        (λ c c' all e. subst IsGreeted (ok_inj e) all) s e

  -- A hub that neither panics nor sends a delta, with the ids registered so far.
  abbrev pub Keeps : List ℕ → Hub w → Type 0
  Keeps seen h = All (IsLive seen) h.connections × IsSilent h

  pub step_keeps :
      (h : Hub w) (seen : List ℕ) (e : Event w)
      → IsNew seen e
      → IsPeer e
      → Keeps seen h
      → Runs (hub_step h e) (Keeps (seen_after seen e))
  step_keeps h seen e new peer (live, silent) =
      let (h', step, live') = hub_step-IsLive h seen e new live in
      (h', step, (live', hub_step-IsSilent h h' e peer silent step))

  pub one_keeps :
      (h : Hub w) (seen : List ℕ) (e : Event w)
      → IsNew seen e
      → IsPeer e
      → Keeps seen h
      → Runs (run h (e ∷ [])) (Keeps (seen_after seen e))
  unfolding run
  one_keeps h seen e new peer kept =
      let (h', step, kept') = step_keeps h seen e new peer kept in (h', rw step refl, kept')
