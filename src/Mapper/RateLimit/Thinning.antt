-- ===== src/Mapper/RateLimit/Thinning.antt =====
-- The loop of mapper/ratelimit_filter.go over the single values of one delta: what it passes under a
-- path is the series of that path, thinned.
use gosk.Prelude.{
  ◌≡◌, refl, ap, ◌∙◌, Bool-cases, inl, inr, String, str_eq, eq_iff, List, [], ◌∷◌, ◌++◌,
  if◌then◌else◌, Option, some, All,
}
use gosk.Prelude.Assoc.{Assoc, lookup, insert, lookup-insert}
use gosk.Message.Values.{Foreign}
use gosk.Message.Delta.{
  Time, Mapped, SingleValueMapped, to_single_value_mapped, add_update, to_update, to_mapped,
}
use gosk.Message.Flatten.{collect, IsFrom}
use gosk.Mapper.RateLimit.{Duration, RateLimitFilter, interval_of, is_due, filter_values}

module _ {w : Foreign} where
  -- The single values under a path, and those of a list of deltas under a context and a path.
  abbrev pub at_path : String → List (SingleValueMapped w) → List (SingleValueMapped w)
  at_path p [] = []
  at_path p (s ∷ ss) = if str_eq s.path p then s ∷ at_path p ss else at_path p ss

  abbrev pub series : String → String → List (Mapped w) → List (SingleValueMapped w)
  series c p [] = []
  series c p (m ∷ ms) =
      (if str_eq m.context c then at_path p (to_single_value_mapped m) else []) ++ series c p ms

  -- One series thinned: the first value passes, and then each that is later than the last passed
  -- value by more than the interval. The second function is the time of the last passed value.
  abbrev pub thin : Duration → Option Time → List (SingleValueMapped w) → List (SingleValueMapped w)
  thin i last [] = []
  thin i last (s ∷ ss) =
      if is_due i last s.timestamp then s ∷ thin i (some s.timestamp) ss else thin i last ss

  abbrev pub last_passed : Duration → Option Time → List (SingleValueMapped w) → Option Time
  last_passed i last [] = last
  last_passed i last (s ∷ ss) =
      if is_due i last s.timestamp
      then last_passed i (some s.timestamp) ss
      else last_passed i last ss

  pub thin-append :
      (i : Duration) (last : Option Time) (xs ys : List (SingleValueMapped w))
      → thin i last (xs ++ ys) ≡ thin i last xs ++ thin i (last_passed i last xs) ys
  thin-append i last [] ys = refl
  thin-append i last (s ∷ ss) ys = elim (Bool-cases (is_due i last s.timestamp)) [
    | inl e ↦ rw e (ap (◌∷◌ s) (thin-append i (some s.timestamp) ss ys))
    | inr e ↦ rw e (thin-append i last ss ys)
  ]

  -- What the loop passes, in order.
  abbrev pub kept :
      RateLimitFilter → List (SingleValueMapped w) → Assoc Time → List (SingleValueMapped w)
  kept f [] seen = []
  kept f (s ∷ ss) seen =
      if is_due (interval_of f s.path) (lookup s.path seen) s.timestamp
      then s ∷ kept f ss (insert s.path s.timestamp seen)
      else kept f ss seen

  pub filter_values-kept :
      (f : RateLimitFilter) (ss : List (SingleValueMapped w)) (seen : Assoc Time)
      (result : Mapped w)
      → (filter_values f ss seen result).0 ≡ collect result (kept f ss seen)
  unfolding filter_values to_mapped
  filter_values-kept f [] seen result = refl
  filter_values-kept f (s ∷ ss) seen result =
      elim (Bool-cases (is_due (interval_of f s.path) (lookup s.path seen) s.timestamp)) [
        | inl e ↦
            rw (e, filter_values)
              (filter_values-kept f ss (insert s.path s.timestamp seen)
                (add_update result (to_update s)))
        | inr e ↦ rw (e, filter_values) (filter_values-kept f ss seen result)
      ]

  pub kept-IsFrom :
      (c o : String) (f : RateLimitFilter) (ss : List (SingleValueMapped w)) (seen : Assoc Time)
      → All (IsFrom c o) ss
      → All (IsFrom c o) (kept f ss seen)
  kept-IsFrom c o f [] seen h = tt
  kept-IsFrom c o f (s ∷ ss) seen (here, later) =
      elim (Bool-cases (is_due (interval_of f s.path) (lookup s.path seen) s.timestamp)) [
        | inl e ↦ rw e (here, kept-IsFrom c o f ss _ later)
        | inr e ↦ rw e (kept-IsFrom c o f ss seen later)
      ]

  pub at_path-kept :
      (f : RateLimitFilter) (p : String) (ss : List (SingleValueMapped w)) (seen : Assoc Time)
      → at_path p (kept f ss seen) ≡ thin (interval_of f p) (lookup p seen) (at_path p ss)
  at_path-kept f p [] seen = refl
  at_path-kept f p (s ∷ ss) seen =
      elim (Bool-cases (is_due (interval_of f s.path) (lookup s.path seen) s.timestamp)) [
        | inl e ↦ elim (Bool-cases (str_eq s.path p)) [
          | inl same ↦
              let due = rw ((eq_iff s.path p).0 same) at e in
              rw (e, same, due)
                (ap (◌∷◌ s) (
                  at_path-kept f p ss (insert s.path s.timestamp seen)
                  ∙ rw (lookup-insert, same) refl))
          | inr other ↦
              rw (e, other)
                (at_path-kept f p ss (insert s.path s.timestamp seen)
                  ∙ rw (lookup-insert, other) refl)
        ]
        | inr e ↦ elim (Bool-cases (str_eq s.path p)) [
          | inl same ↦
              let due = rw ((eq_iff s.path p).0 same) at e in
              rw (e, same, due) (at_path-kept f p ss seen)
          | inr other ↦ rw (e, other) (at_path-kept f p ss seen)
        ]
      ]

  pub lookup-filter_values :
      (f : RateLimitFilter) (p : String) (ss : List (SingleValueMapped w)) (seen : Assoc Time)
      (result : Mapped w)
      → lookup p (filter_values f ss seen result).1
        ≡ last_passed (interval_of f p) (lookup p seen) (at_path p ss)
  unfolding filter_values to_mapped
  lookup-filter_values f p [] seen result = refl
  lookup-filter_values f p (s ∷ ss) seen result =
      elim (Bool-cases (is_due (interval_of f s.path) (lookup s.path seen) s.timestamp)) [
        | inl e ↦ elim (Bool-cases (str_eq s.path p)) [
          | inl same ↦
              let due = rw ((eq_iff s.path p).0 same) at e in
              rw (e, filter_values, same, due)
                (lookup-filter_values f p ss (insert s.path s.timestamp seen) _
                  ∙ rw (lookup-insert, same) refl)
          | inr other ↦
              rw (e, filter_values, other)
                (lookup-filter_values f p ss (insert s.path s.timestamp seen) _
                  ∙ rw (lookup-insert, other) refl)
        ]
        | inr e ↦ elim (Bool-cases (str_eq s.path p)) [
          | inl same ↦
              let due = rw ((eq_iff s.path p).0 same) at e in
              rw (e, filter_values, same, due) (lookup-filter_values f p ss seen result)
          | inr other ↦ rw (e, filter_values, other) (lookup-filter_values f p ss seen result)
        ]
      ]
