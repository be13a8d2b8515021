-- ===== src/Writer/SignalKLaws.antt =====
-- The goroutines of writer/signalk_ws.go that wait for a client.
use mathlib.Core.Path.{subst}
use gosk.Prelude.{
  ℕ, zero, suc, ◌≡◌, ◌≢◌, refl, sym, ap, ◌∙◌, inl, inr, false, ◌==◌, ==_iff, Bool-cases, List, [],
  ◌∷◌, ◌++◌, get_elem?, Option, none, some, arith,
}
use gosk.Message.Values.{Foreign}
use gosk.Message.Delta.{Mapped}
use gosk.Database.MessageCache.{ByteCache, CacheCodec}
use gosk.Writer.SignalK.{
  Peer, Sending, Step, loaded, stored, updated, requested, accepted, handed, left, change_at,
  SignalKWriter, if_serving, hand_over, remove_client, signal_k_step, run_steps,
}

get_elem?-append :
    {A : Type 0} (xs ys : List A) (i : ℕ) (x : A)
    → get_elem? xs i ≡ some x
    → get_elem? (xs ++ ys) i ≡ some x
get_elem?-append [] ys i x e = cc
get_elem?-append (y ∷ xs) ys zero x e = e
get_elem?-append (y ∷ xs) ys (suc i) x e = get_elem?-append xs ys i x e

get_elem?-change_at_other :
    {A : Type 0} (j k : ℕ) (f : A → A) (xs : List A)
    → j ≢ k
    → get_elem? (change_at j f xs) k ≡ get_elem? xs k
get_elem?-change_at_other j k f [] other = refl
get_elem?-change_at_other zero zero f (x ∷ xs) other = absurd (other refl)
get_elem?-change_at_other zero (suc k) f (x ∷ xs) other = refl
get_elem?-change_at_other (suc j) zero f (x ∷ xs) other = refl
get_elem?-change_at_other (suc j) (suc k) f (x ∷ xs) other =
    get_elem?-change_at_other j k f xs (λ e. other (ap suc e))

module _ {w : Foreign} where
  -- The handler of the client on the channel has ended.
  abbrev pub IsGone : ℕ → List (Peer w) → Type 0
  IsGone channel peers = (p : Peer w) × (get_elem? peers channel ≡ some p) × (p.is_serving ≡ false)

  change_at-IsGone :
      (j channel : ℕ) (f : Peer w → Peer w) (peers : List (Peer w))
      → ((p : Peer w) → p.is_serving ≡ false → (f p).is_serving ≡ false)
      → IsGone channel peers
      → IsGone channel (change_at j f peers)
  change_at-IsGone j channel f [] keeps (p, here, off) = cc
  change_at-IsGone zero zero f (q ∷ peers) keeps (p, here, off) =
      let same : q ≡ p = cc in (f q, refl, keeps q (ap (λ (r : Peer w). r.is_serving) same ∙ off))
  change_at-IsGone zero (suc channel) f (q ∷ peers) keeps gone = gone
  change_at-IsGone (suc j) zero f (q ∷ peers) keeps gone = gone
  change_at-IsGone (suc j) (suc channel) f (q ∷ peers) keeps gone =
      change_at-IsGone j channel f peers keeps gone

module _ (cache : ByteCache) (w : Foreign) (codec : CacheCodec w) where
  -- The goroutine at the place waits for a client that has left.
  pub record IsStuck (k channel : ℕ) (u : Sending w) (s : SignalKWriter cache w) : Type 0 where
    pub waits : get_elem? s.updates k ≡ some u
    pub gone : IsGone channel s.peers

  module _ (k channel : ℕ) (u : Sending w) (rest : List ℕ)
      (first : u.waiting ≡ channel ∷ rest) where
    abbrev Stuck : SignalKWriter cache w → Type 0
    Stuck = IsStuck k channel u

    if_serving-Stuck :
        (j c : ℕ) (later : List ℕ) (delta : Mapped w) (o : Option (Peer w))
        (s : SignalKWriter cache w)
        → j ≢ k
        → Stuck s
        → Stuck (if_serving cache w o j c later delta s)
    if_serving-Stuck j c later delta none s other st = st
    if_serving-Stuck j c later delta (some p) s other st = elim (Bool-cases p.is_serving) [
      | inl e ↦ rw e (record {
        waits = get_elem?-change_at_other j k _ s.updates other ∙ st.waits;
        gone = change_at-IsGone c channel _ s.peers (λ p off. off) st.gone;
      })
      | inr e ↦ rw e st
    ]

    waiting-Stuck :
        (j : ℕ) (delta : Mapped w) (channels : List ℕ) (s : SignalKWriter cache w)
        → j ≢ k
        → Stuck s
        → Stuck (elim channels [
          | [] ↦ s
          | c ∷ later ↦ if_serving cache w (get_elem? s.peers c) j c later delta s
        ])
    waiting-Stuck j delta [] s other st = st
    waiting-Stuck j delta (c ∷ later) s other st =
        if_serving-Stuck j c later delta (get_elem? s.peers c) s other st

    hand_over-Stuck :
        (j : ℕ) (o : Option (Sending w)) (s : SignalKWriter cache w)
        → j ≢ k
        → Stuck s
        → Stuck (hand_over cache w j o s)
    hand_over-Stuck j none s other st = st
    hand_over-Stuck j (some v) s other st = waiting-Stuck j v.delta v.waiting s other st

    -- The goroutine itself cannot go on.
    hand_over_waits :
        (s : SignalKWriter cache w) → Stuck s → hand_over cache w k (get_elem? s.updates k) s ≡ s
    hand_over_waits s st = let (p, here, off) = st.gone in rw (st.waits, first, here, off) refl

    remove_client-Stuck :
        (c : ℕ) (o : Option (Peer w)) (s : SignalKWriter cache w)
        → Stuck s
        → Stuck (remove_client cache w c o s)
    remove_client-Stuck c none s st = st
    remove_client-Stuck c (some p) s st = elim (Bool-cases p.is_serving) [
      | inl e ↦ rw e (record {
        waits = st.waits;
        gone = change_at-IsGone c channel _ s.peers (λ p off. refl) st.gone;
      })
      | inr e ↦ rw e st
    ]

    signal_k_step-Stuck :
        (step : Step w) (s : SignalKWriter cache w)
        → Stuck s
        → Stuck (signal_k_step cache w codec step s)
    unfolding signal_k_step
    signal_k_step-Stuck (loaded none) s st = st
    signal_k_step-Stuck (loaded (some deltas)) s st = record { waits = st.waits; gone = st.gone }
    signal_k_step-Stuck (stored delta) s st = record { waits = st.waits; gone = st.gone }
    signal_k_step-Stuck (updated delta) s st = record {
      waits = get_elem?-append s.updates _ k u st.waits;
      gone = st.gone;
    }
    signal_k_step-Stuck requested s st = elim (Bool-cases s.is_loaded) [
      | inl e ↦ rw e (record { waits = st.waits; gone = st.gone })
      | inr e ↦ rw e (record { waits = st.waits; gone = st.gone })
    ]
    signal_k_step-Stuck (accepted host) s st =
        let (p, here, off) = st.gone in
        record { waits = st.waits; gone = (p, get_elem?-append s.peers _ channel p here, off) }
    signal_k_step-Stuck (handed j) s st = elim (Bool-cases (j == k)) [
      | inl e ↦ let same = (==_iff j k).0 e in rw same (subst Stuck (sym (hand_over_waits s st)) st)
      | inr e ↦ hand_over-Stuck j (get_elem? s.updates j) s (λ same. ground (arith, e)) st
    ]
    signal_k_step-Stuck (left c) s st = remove_client-Stuck c (get_elem? s.peers c) s st

    -- A goroutine that waits for a client whose handler has ended waits for it for ever: whatever
    -- else happens, it keeps its delta, and the clients behind do not get it from it.
    pub run_steps-IsStuck :
        (steps : List (Step w)) (s : SignalKWriter cache w)
        → IsStuck k channel u s
        → IsStuck k channel u (run_steps cache w codec steps s)
    unfolding run_steps
    run_steps-IsStuck [] s st = st
    run_steps-IsStuck (step ∷ steps) s st =
        run_steps-IsStuck steps (signal_k_step cache w codec step s) (signal_k_step-Stuck step s st)
