-- ===== src/Mapper/RateLimit.antt =====
-- mapper/ratelimit_filter.go: a value passes if its path was never seen in its context, or if the
-- last value that passed is older than the interval of the path.
pub mod Thinning
pub mod Run
use gosk.Prelude.{Bool, true, false, String, List, [], ◌∷◌, Option, none, some, Outcome, ok}
use gosk.Prelude.Int.{ℤ, ◌-ℤ◌, ltb_ℤ}
use gosk.Prelude.Assoc.{Assoc, lookup, insert}
use gosk.Message.Values.{Foreign}
use gosk.Message.Delta.{Time, Mapped, SingleValueMapped, to_single_value_mapped, to_mapped}
use gosk.Mapper.Process.{MapError, add_updates}

-- A `time.Duration` in nanoseconds.
abbrev pub Duration : Type 0
Duration = ℤ

pub record RateLimitsConfig : Type 0 where
  pub path : String
  pub interval : Duration

-- The default interval is that of the configuration.
pub record RateLimitFilter : Type 0 where
  pub default_interval : Duration
  pub last_seen : Assoc (Assoc Time)
  pub rate_limit : Assoc Duration

unfoldable pub limits_of : List RateLimitsConfig → Assoc Duration → Assoc Duration
limits_of [] limits = limits
limits_of (c ∷ rest) limits = limits_of rest (insert c.path c.interval limits)

unfoldable pub new_rate_limit_filter : List RateLimitsConfig → Duration → RateLimitFilter
unfolding limits_of
new_rate_limit_filter rate_limits default_interval = record {
  default_interval = default_interval;
  last_seen = [];
  rate_limit = limits_of rate_limits [];
}

unfoldable pub interval_of : RateLimitFilter → String → Duration
interval_of f path = elim (lookup path f.rate_limit) [
  | none ↦ f.default_interval
  | some interval ↦ interval
]

-- `timestamp.Before(svm.Timestamp.Add(-interval))`, or the path was never seen.
unfoldable pub is_due : Duration → Option Time → Time → Bool
is_due interval none now = true
is_due interval (some last) now = ltb_ℤ last (now -ℤ interval)

abbrev pub seen_of : Option (Assoc Time) → Assoc Time
seen_of none = []
seen_of (some seen) = seen

module _ {w : Foreign} where
  -- The loop over the single values, with the map of the context and the result so far.
  unfoldable pub filter_values :
      RateLimitFilter → List (SingleValueMapped w) → Assoc Time → Mapped w → Mapped w × Assoc Time
  unfolding to_mapped
  filter_values f [] seen result = (result, seen)
  filter_values f (s ∷ rest) seen result =
      elim (is_due (interval_of f s.path) (lookup s.path seen) s.timestamp) [
        | true ↦
            filter_values f rest (insert s.path s.timestamp seen)
              (add_updates result (to_mapped s).updates)
        | false ↦ filter_values f rest seen result
      ]

  -- `DoMap`, which never returns an error. The inner map is shared with `lastSeen`.
  unfoldable pub limit : RateLimitFilter → Mapped w → Outcome MapError (Mapped w) × RateLimitFilter
  limit f delta =
      let seen = seen_of (lookup delta.context f.last_seen) in
      let empty : Mapped w = record {
        context = delta.context;
        origin = delta.origin;
        updates = [];
      } in
      let (result, seen') = filter_values f (to_single_value_mapped delta) seen empty in
      (ok result, record f { last_seen = insert delta.context seen' f.last_seen })
