-- ===== src/Transfer/CountLaws.antt =====
-- The count requests of transfer/request.go: their loop ends, and every period is asked for.
use mathlib.Core.Path.{subst}
use gosk.Prelude.{
  ℕ, zero, suc, ◌*◌, ◌≡◌, refl, ap, sym, ◌∙◌, Bool-cases, inl, inr, true, String, List, [], ◌∷◌,
  ◌++◌, All, All-append, Any, Any-front, Any-back, some, if◌then◌else◌, arith,
}
use gosk.Prelude.Int.{
  ℤ, pos, ◌+ℤ◌, ◌-ℤ◌, ◌≤ℤ◌, ◌<ℤ◌, ltb_ℤ, eq_of_parts, +ℤ_parts, lt-sub, ltb_ℤ-sub,
}
use gosk.Prelude.Assoc.{Assoc}
use gosk.Message.Delta.{Time}
use gosk.Transfer.Messages.{period_duration, count_request_cool_down}
use gosk.Transfer.Requester.{is_missing, missing_periods}

-- The start of the k-th period behind a start.
abbrev pub period_at : Time → ℕ → Time
period_at start k = start +ℤ pos (k * period_duration)

period_at-zero : (start : Time) → period_at start 0 ≡ start
period_at-zero start = eq_of_parts _ _ (omega (arith, +ℤ_parts start (pos 0)))

period_at-suc :
    (start : Time) (k : ℕ) → period_at (start +ℤ pos period_duration) k ≡ period_at start (suc k)
period_at-suc start k = eq_of_parts _ _ (
    omega (
      arith,
      +ℤ_parts start (pos period_duration),
      +ℤ_parts (start +ℤ pos period_duration) (pos (k * period_duration)),
      +ℤ_parts start (pos (suc k * period_duration)),
    ))

not_before_itself : (p limit : ℤ) → p <ℤ limit → limit ≤ℤ period_at p 0 → ⊥
not_before_itself p limit before le = omega (arith, +ℤ_parts p (pos 0))

before_later : (p : Time) (k : ℕ) (limit : ℤ) → period_at p (suc k) <ℤ limit → p <ℤ limit
before_later p k limit before = omega (arith, +ℤ_parts p (pos (suc k * period_duration)))

same_out : {xs ys : List Time} → some xs ≡ some ys → xs ≡ ys
same_out h = ground (arith, h)

module _ (existing : Assoc (List Time)) (origin : String) (clock : ℕ → Time) where
  abbrev added : Time → List Time → List Time
  added p periods = if is_missing existing origin p then periods ++ p ∷ [] else periods

  -- No count is known, and the period starts more than the cool down before the limit.
  abbrev pub IsDue : Time → Time → Type 0
  IsDue limit p =
      (is_missing existing origin p ≡ true) × (p <ℤ (limit -ℤ pos count_request_cool_down))

  added-IsDue :
      (limit p : Time) (periods : List Time)
      → p <ℤ (limit -ℤ pos count_request_cool_down)
      → All (IsDue limit) periods
      → All (IsDue limit) (added p periods)
  added-IsDue limit p periods before all = elim (Bool-cases (is_missing existing origin p)) [
    | inl e ↦ rw e (All-append (IsDue limit) periods (p ∷ []) all ((e, before), tt))
    | inr e ↦ rw e all
  ]

  -- If the clock never passes a limit, the loop over the periods of an origin ends, on fuel for one
  -- test more than there are periods up to the limit less the cool down; all periods that it adds to
  -- the list lack a count and start more than the cool down before the limit.
  pub missing_periods-ends :
      (n i : ℕ) (limit p : Time) (periods : List Time)
      → ((j : ℕ) → clock j ≤ℤ limit)
      → (limit -ℤ pos count_request_cool_down) ≤ℤ period_at p n
      → All (IsDue limit) periods
      → (out : List Time) × (missing_periods existing origin clock (suc n) i p periods ≡ some out)
        × All (IsDue limit) out
  unfolding missing_periods
  missing_periods-ends zero i limit p periods bounded enough all =
      elim (Bool-cases (ltb_ℤ p (clock i -ℤ pos count_request_cool_down))) [
        | inl e ↦ absurd (not_before_itself p _ (lt-sub p (clock i) limit _ e (bounded i)) enough)
        | inr e ↦ (periods, rw (e, missing_periods) refl, all)
      ]
  missing_periods-ends (suc n) i limit p periods bounded enough all =
      elim (Bool-cases (ltb_ℤ p (clock i -ℤ pos count_request_cool_down))) [
        | inl e ↦
            let (out, found, due) =
              missing_periods-ends n (suc i) limit (p +ℤ pos period_duration) (added p periods)
                bounded (rw (period_at-suc p n) enough)
                (added-IsDue limit p periods (lt-sub p (clock i) limit _ e (bounded i)) all) in
            (out, rw (e, missing_periods) found, due)
        | inr e ↦ (periods, rw (e, missing_periods) refl, all)
      ]

  missing_periods-keeps :
      (n i : ℕ) (p q : Time) (periods out : List Time)
      → missing_periods existing origin clock n i p periods ≡ some out
      → Any (λ r. r ≡ q) periods
      → Any (λ r. r ≡ q) out
  unfolding missing_periods
  missing_periods-keeps zero i p q periods out h here = absurd (ground (arith, h))
  missing_periods-keeps (suc n) i p q periods out h here =
      elim (Bool-cases (ltb_ℤ p (clock i -ℤ pos count_request_cool_down))) [
        | inl e ↦
            missing_periods-keeps n (suc i) (p +ℤ pos period_duration) q (added p periods) out
              (rw (e, missing_periods) at h)
              (elim (Bool-cases (is_missing existing origin p)) [
                | inl m ↦ rw m (Any-front (λ r. r ≡ q) periods (p ∷ []) here)
                | inr m ↦ rw m here
              ])
        | inr e ↦
            let same : some periods ≡ some out = rw (e, missing_periods) at h in
            rw (← same_out same) here
      ]

  -- A period that lacks a count and starts more than the cool down before every reading of the clock
  -- is in the list.
  pub missing_periods-has :
      (n i k : ℕ) (low p : Time) (periods out : List Time)
      → missing_periods existing origin clock n i p periods ≡ some out
      → ((j : ℕ) → low ≤ℤ clock j)
      → IsDue low (period_at p k)
      → Any (λ r. r ≡ period_at p k) out
  unfolding missing_periods
  missing_periods-has zero i k low p periods out h bounded due = absurd (ground (arith, h))
  missing_periods-has (suc n) i zero low p periods out h bounded (missing, before) =
      let here : is_missing existing origin p ≡ true =
        ap (is_missing existing origin) (sym (period_at-zero p)) ∙ missing in
      let e =
        ltb_ℤ-sub p low (clock i) _
          (subst (λ q. q <ℤ (low -ℤ pos count_request_cool_down)) (period_at-zero p) before)
          (bounded i) in
      missing_periods-keeps n (suc i) (p +ℤ pos period_duration) (period_at p 0) (added p periods)
        out (rw (e, missing_periods) at h)
        (rw here (Any-back _ periods (p ∷ []) (inl (sym (period_at-zero p)))))
  missing_periods-has (suc n) i (suc k) low p periods out h bounded (missing, before) =
      let e = ltb_ℤ-sub p low (clock i) _ (before_later p k _ before) (bounded i) in
      subst (λ q. Any (λ r. r ≡ q) out) (period_at-suc p k)
        (missing_periods-has n (suc i) k low (p +ℤ pos period_duration) (added p periods) out
          (rw (e, missing_periods) at h) bounded
          (subst (IsDue low) (sym (period_at-suc p k)) (missing, before)))
