-- ===== src/Writer/SignalKLoad.antt =====
-- The requests of writer/signalk_http.go that wait for the first reading of the database.
use gosk.Prelude.{
  ℕ, suc, ◌+◌, ◌≡◌, refl, ap, inl, inr, false, Bool-cases, List, [], ◌∷◌, All, get_elem?, Option,
  none, some, arith,
}
use mathlib.Core.Path.{subst}
use gosk.Message.Values.{Foreign}
use gosk.Message.Delta.{Mapped}
use gosk.Database.MessageCache.{ByteCache, CacheCodec, BigCache}
use gosk.Writer.SignalK.{
  Peer, Sending, Step, loaded, stored, updated, requested, accepted, handed, left, SignalKWriter,
  new_signal_k_writer, if_serving, hand_over, remove_client, serve_full_data_model, signal_k_step,
  run_steps,
}

module _ {w : Foreign} where
  -- The database gives nothing.
  abbrev pub FailsToLoad : Step w → Type 0
  FailsToLoad (loaded (some deltas)) = ⊥
  FailsToLoad _ = Unit

  abbrev pub count_requests : List (Step w) → ℕ
  count_requests [] = 0
  count_requests (requested ∷ steps) = suc (count_requests steps)
  count_requests (_ ∷ steps) = count_requests steps

module _ (cache : ByteCache) (w : Foreign) (codec : CacheCodec w) where
  -- No request was answered, and so many wait.
  pub record IsWaiting (n : ℕ) (s : SignalKWriter cache w) : Type 0 where
    pub not_loaded : s.is_loaded ≡ false
    pub unanswered : s.answers ≡ []
    pub waiting : s.waiting_requests ≡ n

  module _ (n : ℕ) where
    if_serving-IsWaiting :
        (o : Option (Peer w)) (k c : ℕ) (later : List ℕ) (delta : Mapped w)
        (s : SignalKWriter cache w)
        → IsWaiting n s
        → IsWaiting n (if_serving cache w o k c later delta s)
    if_serving-IsWaiting none k c later delta s h = h
    if_serving-IsWaiting (some p) k c later delta s h = elim (Bool-cases p.is_serving) [
      | inl e ↦
          rw e
            (record { not_loaded = h.not_loaded; unanswered = h.unanswered; waiting = h.waiting })
      | inr e ↦ rw e h
    ]

    channels-IsWaiting :
        (k : ℕ) (delta : Mapped w) (channels : List ℕ) (s : SignalKWriter cache w)
        → IsWaiting n s
        → IsWaiting n (elim channels [
          | [] ↦ s
          | c ∷ later ↦ if_serving cache w (get_elem? s.peers c) k c later delta s
        ])
    channels-IsWaiting k delta [] s h = h
    channels-IsWaiting k delta (c ∷ later) s h =
        if_serving-IsWaiting (get_elem? s.peers c) k c later delta s h

    hand_over-IsWaiting :
        (k : ℕ) (o : Option (Sending w)) (s : SignalKWriter cache w)
        → IsWaiting n s
        → IsWaiting n (hand_over cache w k o s)
    hand_over-IsWaiting k none s h = h
    hand_over-IsWaiting k (some u) s h = channels-IsWaiting k u.delta u.waiting s h

    remove_client-IsWaiting :
        (c : ℕ) (o : Option (Peer w)) (s : SignalKWriter cache w)
        → IsWaiting n s
        → IsWaiting n (remove_client cache w c o s)
    remove_client-IsWaiting c none s h = h
    remove_client-IsWaiting c (some p) s h = elim (Bool-cases p.is_serving) [
      | inl e ↦
          rw e
            (record { not_loaded = h.not_loaded; unanswered = h.unanswered; waiting = h.waiting })
      | inr e ↦ rw e h
    ]

  request-IsWaiting :
      (n : ℕ) (s : SignalKWriter cache w)
      → IsWaiting n s
      → IsWaiting (suc n) (serve_full_data_model cache w codec s)
  request-IsWaiting n s h =
      rw h.not_loaded
        (record { not_loaded = refl; unanswered = h.unanswered; waiting = ap suc h.waiting })

  requests_wait :
      (steps : List (Step w)) (n : ℕ) (s : SignalKWriter cache w)
      → All FailsToLoad steps
      → IsWaiting n s
      → IsWaiting (n + count_requests steps) (run_steps cache w codec steps s)
  unfolding run_steps signal_k_step
  requests_wait [] n s fails h = record {
    not_loaded = h.not_loaded;
    unanswered = h.unanswered;
    waiting = omega (arith, h.waiting);
  }
  requests_wait (loaded none ∷ steps) n s (here, fails) h = requests_wait steps n s fails h
  requests_wait (loaded (some deltas) ∷ steps) n s (here, fails) h = absurd here
  requests_wait (stored delta ∷ steps) n s (here, fails) h =
      requests_wait steps n _ fails
        (record { not_loaded = h.not_loaded; unanswered = h.unanswered; waiting = h.waiting })
  requests_wait (updated delta ∷ steps) n s (here, fails) h =
      requests_wait steps n _ fails
        (record { not_loaded = h.not_loaded; unanswered = h.unanswered; waiting = h.waiting })
  requests_wait (requested ∷ steps) n s (here, fails) h =
      let one_more : suc n + count_requests steps ≡ n + suc (count_requests steps) = omega arith in
      subst (λ m. IsWaiting m (run_steps cache w codec (requested ∷ steps) s)) one_more
        (requests_wait steps (suc n) _ fails (request-IsWaiting n s h))
  requests_wait (accepted host ∷ steps) n s (here, fails) h =
      requests_wait steps n _ fails
        (record { not_loaded = h.not_loaded; unanswered = h.unanswered; waiting = h.waiting })
  requests_wait (handed k ∷ steps) n s (here, fails) h =
      requests_wait steps n _ fails (hand_over-IsWaiting n k (get_elem? s.updates k) s h)
  requests_wait (left c ∷ steps) n s (here, fails) h =
      requests_wait steps n _ fails (remove_client-IsWaiting n c (get_elem? s.peers c) s h)

  -- As long as no reading of the database succeeds, no request for the data model is answered, not
  -- even with an error: all of them wait.
  pub run_steps-IsWaiting :
      (empty : BigCache cache) (steps : List (Step w))
      → All FailsToLoad steps
      → IsWaiting
          (count_requests steps)
          (run_steps cache w codec steps (new_signal_k_writer cache w empty))
  run_steps-IsWaiting empty steps fails =
      subst (λ n. IsWaiting n (run_steps cache w codec steps (new_signal_k_writer cache w empty)))
        (omega arith)
        (requests_wait steps 0 (new_signal_k_writer cache w empty) fails
          (record { not_loaded = refl; unanswered = refl; waiting = refl }))
