-- ===== src/Mapper/RateLimit/Run.antt =====
-- The rate limit filter of mapper/ratelimit_filter.go in the loop `processMapped`: over a whole run,
-- each path of each context is thinned by itself.
use gosk.Prelude.{
  ◌≡◌, refl, ap, ◌∙◌, Bool-cases, inl, inr, String, str_eq, eq_iff, List, [], ◌∷◌, ◌++◌,
  if◌then◌else◌, Option, none, some, arith,
}
use gosk.Prelude.Int.{◌-ℤ◌, ◌<ℤ◌, ltb_ℤ, ltb_ℤ→lt}
use gosk.Prelude.Assoc.{lookup, lookup-insert}
use gosk.Message.Values.{Foreign}
use gosk.Message.Delta.{
  Time, Update, Mapped, SingleValueMapped, to_single_value_mapped, add_update, to_update,
}
use gosk.Message.Flatten.{
  collect, empty_like, to_single_value_mapped-IsFrom, to_single_value_mapped-collect,
}
use gosk.Mapper.Process.{send_mapped, process_mapped}
use gosk.Mapper.RateLimit.{
  Duration, RateLimitFilter, interval_of, is_due, seen_of, filter_values, limit,
}
use gosk.Mapper.RateLimit.Thinning.{
  at_path, series, thin, last_passed, thin-append, kept, filter_values-kept, kept-IsFrom,
  at_path-kept, lookup-filter_values,
}

-- The time at which the filter last let a value of the path pass.
abbrev pub last_at : RateLimitFilter → String → String → Option Time
last_at f c p = lookup p (seen_of (lookup c f.last_seen))

module _ {w : Foreign} where
  -- What `DoMap` answers.
  abbrev out_of : RateLimitFilter → Mapped w → Mapped w
  out_of f m =
      (filter_values f (to_single_value_mapped m) (seen_of (lookup m.context f.last_seen))
        (empty_like m)).0

  abbrev next_of : RateLimitFilter → Mapped w → RateLimitFilter
  next_of f m = (limit f m).1

  collect-context :
      (result : Mapped w) (ss : List (SingleValueMapped w))
      → (collect result ss).context ≡ result.context
  collect-context result [] = refl
  collect-context result (s ∷ ss) =
      collect-context (add_update result (to_update s)) ss ∙ unfold add_update in refl

  context-out : (f : RateLimitFilter) (m : Mapped w) → (out_of f m).context ≡ m.context
  context-out f m = rw (filter_values-kept) (
      collect-context (empty_like m)
        (kept f (to_single_value_mapped m) (seen_of (lookup m.context f.last_seen))))

  empty_singles : (m : Mapped w) → to_single_value_mapped (empty_like m) ≡ []
  unfolding to_single_value_mapped
  empty_singles m = refl

  -- What one delta passes under a path of its context.
  at_path-out :
      (f : RateLimitFilter) (p : String) (m : Mapped w)
      → at_path p (to_single_value_mapped (out_of f m))
        ≡ thin (interval_of f p) (last_at f m.context p) (at_path p (to_single_value_mapped m))
  at_path-out f p m =
      let seen = seen_of (lookup m.context f.last_seen) in
      rw
        (
          filter_values-kept,
          to_single_value_mapped-collect (empty_like m) (kept f (to_single_value_mapped m) seen)
              (kept-IsFrom m.context m.origin f _ seen (to_single_value_mapped-IsFrom m)),
          empty_singles,
        )
        (at_path-kept f p _ seen)

  interval_of-next :
      (f : RateLimitFilter) (p : String) (m : Mapped w)
      → interval_of (next_of f m) p ≡ interval_of f p
  unfolding limit interval_of
  interval_of-next f p m = refl

  -- The other contexts are left alone.
  last_at-next :
      (f : RateLimitFilter) (c p : String) (m : Mapped w)
      → last_at (next_of f m) c p ≡ (
          if str_eq m.context c
          then last_passed (interval_of f p) (last_at f c p) (at_path p (to_single_value_mapped m))
          else last_at f c p)
  unfolding limit
  last_at-next f c p m = elim (Bool-cases (str_eq m.context c)) [
    | inl e ↦
        rw (lookup-insert, e)
          (lookup-filter_values f p (to_single_value_mapped m) _ _
            ∙ rw ((eq_iff m.context c).0 e) refl)
    | inr e ↦ rw (lookup-insert, e) refl
  ]

  -- A delta without updates adds nothing to a series, so it makes no difference that it is not sent.
  series-sent :
      (c p : String) (m : Mapped w) (sent : List (Mapped w))
      → series c p (send_mapped m sent) ≡ series c p (m ∷ sent)
  unfolding to_single_value_mapped
  series-sent c p m sent = by_updates m.context m.origin m.updates
    where
      by_updates :
          (x o : String) (us : List (Update w))
          → series c p (send_mapped (record { context = x; origin = o; updates = us }) sent)
            ≡ series c p (record { context = x; origin = o; updates = us } ∷ sent)
      by_updates x o [] = ground arith
      by_updates x o (u ∷ us) = refl

  thin_step :
      (c p : String) (f : RateLimitFilter) (m : Mapped w) (ms : List (Mapped w))
      (tail : List (SingleValueMapped w))
      → tail ≡ thin (interval_of f p) (last_at (next_of f m) c p) (series c p ms)
      → (if str_eq (out_of f m).context c
            then at_path p (to_single_value_mapped (out_of f m))
            else [])
          ++ tail
        ≡ thin (interval_of f p) (last_at f c p) (series c p (m ∷ ms))
  thin_step c p f m ms tail h = elim (Bool-cases (str_eq m.context c)) [
    | inl e ↦
        let here =
          at_path-out f p m
          ∙ ap (λ x. thin (interval_of f p) (last_at f x p) (at_path p (to_single_value_mapped m)))
              ((eq_iff m.context c).0 e) in
        rw (context-out f m, e, h, last_at-next, e, thin-append, here) refl
    | inr e ↦ rw (context-out f m, e, h, last_at-next, e) refl
  ]

  -- Over a whole run of the loop, the values that are sent under a context and a path are the values
  -- that arrived under them, thinned by the interval of the path: the first, and then each that is
  -- later than the last one sent by more than the interval. Other contexts and paths play no part.
  pub series-process_mapped :
      (c p : String) (f : RateLimitFilter) (ms : List (Mapped w))
      → series c p (process_mapped limit f ms).0
        ≡ thin (interval_of f p) (last_at f c p) (series c p ms)
  unfolding process_mapped limit
  series-process_mapped c p f [] = refl
  series-process_mapped c p f (m ∷ ms) =
      series-sent c p (out_of f m) (process_mapped limit (next_of f m) ms).0
      ∙ thin_step c p f m ms _
          (series-process_mapped c p (next_of f m) ms ∙ rw (interval_of-next f p m) refl)

  -- Each value passed later than the one before it, and the first later than `last`, by more than
  -- the interval.
  abbrev pub SpacedAfter : Duration → Option Time → List (SingleValueMapped w) → Type 0
  SpacedAfter i last [] = Unit
  SpacedAfter i none (s ∷ ss) = SpacedAfter i (some s.timestamp) ss
  SpacedAfter i (some t) (s ∷ ss) = (t <ℤ s.timestamp -ℤ i) × SpacedAfter i (some s.timestamp) ss

  thin-SpacedAfter :
      (i : Duration) (last : Option Time) (ss : List (SingleValueMapped w))
      → SpacedAfter i last (thin i last ss)
  unfolding is_due
  thin-SpacedAfter i last [] = tt
  thin-SpacedAfter i none (s ∷ ss) = thin-SpacedAfter i (some s.timestamp) ss
  thin-SpacedAfter i (some t) (s ∷ ss) = elim (Bool-cases (ltb_ℤ t (s.timestamp -ℤ i))) [
    | inl e ↦ rw e (ltb_ℤ→lt t (s.timestamp -ℤ i) e, thin-SpacedAfter i (some s.timestamp) ss)
    | inr e ↦ rw e (thin-SpacedAfter i (some t) ss)
  ]

  -- Over a whole run of the loop, two values that are sent one after the other under a context and a
  -- path are more than the interval of the path apart, and so is the first one from the value that
  -- passed before the run, if there was one.
  pub process_mapped-SpacedAfter :
      (c p : String) (f : RateLimitFilter) (ms : List (Mapped w))
      → SpacedAfter (interval_of f p) (last_at f c p) (series c p (process_mapped limit f ms).0)
  process_mapped-SpacedAfter c p f ms =
      rw (series-process_mapped c p f ms)
        (thin-SpacedAfter (interval_of f p) (last_at f c p) (series c p ms))
