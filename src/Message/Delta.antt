-- ===== src/Message/Delta.antt =====
-- message/mapped.go, mapped_update.go, mapped_update_source.go and mapped_update_value.go: a delta
-- is a list of updates, each a list of values under one source and one time.
use gosk.Prelude.{
  ℕ, Bool, true, false, ◌&&◌, ◌||◌, ◌==◌, String, str_eq, List, [], ◌∷◌, ◌++◌, length,
  if◌then◌else◌, Option, none, some, ok, err, panic,
}
use gosk.Prelude.Int.{ℤ, negsuc}
use gosk.Message.Values.{Foreign, GoValue, value_equal, deep_equal}
use gosk.Message.Merger.{merge, as_merger, of_merger}

-- A `time.Time` is an instant in nanoseconds of Unix time; `time.Time{}` is the year 1.
abbrev pub Time : Type 0
Time = ℤ

abbrev pub zero_time : Time
zero_time = negsuc 62135596799999999999

-- A `uuid.UUID` is its 128 bits.
abbrev pub Uuid : Type 0
Uuid = ℕ

pub record Source : Type 0 where
  pub label : String
  pub type : String
  pub uuid : Uuid
  pub transfer_uuid : Uuid

pub record Value (w : Foreign) : Type 0 where
  pub path : String
  pub value : GoValue w

pub record Update (w : Foreign) : Type 0 where
  pub source : Source
  pub timestamp : Time
  pub values : List (Value w)

pub record Mapped (w : Foreign) : Type 0 where
  pub context : String
  pub origin : String
  pub updates : List (Update w)

pub record SingleValueMapped (w : Foreign) : Type 0 where
  pub context : String
  pub origin : String
  pub source : Source
  pub timestamp : Time
  pub path : String
  pub value : GoValue w

abbrev pub new_source : Source
new_source = record { label = ""; type = ""; uuid = 0; transfer_uuid = 0 }

module _ {w : Foreign} where
  -- `NewUpdate` reads the clock, which every caller replaces by `WithTimestamp`.
  abbrev pub new_update : Time → Update w
  new_update now = record { source = new_source; timestamp = now; values = [] }

  abbrev pub new_mapped : Mapped w
  new_mapped = record { context = ""; origin = ""; updates = [] }

  unfoldable pub add_value : Update w → Value w → Update w
  add_value u v = record u { values = u.values ++ v ∷ [] }

  unfoldable pub add_update : Mapped w → Update w → Mapped w
  add_update m u = record m { updates = m.updates ++ u ∷ [] }

  abbrev pub find_path : List (Value w) → String → Option (Value w)
  find_path [] p = none
  find_path (v ∷ values) p = if str_eq v.path p then some v else find_path values p

  -- The pointer that the source returns is to the loop's copy, so what is written through it does
  -- not reach the update: the model returns the copy.
  unfoldable pub get_value_by_path : Update w → String → Option (Value w)
  get_value_by_path u p = find_path u.values p

  unfoldable pub value_equals : Value w → Value w → Option Bool
  value_equals v o = if str_eq v.path o.path then value_equal w v.value o.value else some false

  abbrev pub of_update : String → String → Update w → List (Value w) → List (SingleValueMapped w)
  of_update context origin u [] = []
  of_update context origin u (v ∷ values) =
      record {
        context = context;
        origin = origin;
        source = u.source;
        timestamp = u.timestamp;
        path = v.path;
        value = v.value;
      }
      ∷ of_update context origin u values

  abbrev pub of_updates : String → String → List (Update w) → List (SingleValueMapped w)
  of_updates context origin [] = []
  of_updates context origin (u ∷ updates) =
      of_update context origin u u.values ++ of_updates context origin updates

  unfoldable pub to_single_value_mapped : Mapped w → List (SingleValueMapped w)
  to_single_value_mapped m = of_updates m.context m.origin m.updates

  abbrev pub to_update : SingleValueMapped w → Update w
  to_update s = record {
    source = s.source;
    timestamp = s.timestamp;
    values = record { path = s.path; value = s.value } ∷ [];
  }

  unfoldable pub to_mapped : SingleValueMapped w → Mapped w
  to_mapped s = record { context = s.context; origin = s.origin; updates = to_update s ∷ [] }

  unfoldable pub single_equals : SingleValueMapped w → SingleValueMapped w → Bool
  single_equals s o =
      str_eq s.context o.context && (str_eq s.path o.path && deep_equal w s.value o.value)

  -- `left.Merge(right)` of two single values.
  unfoldable pub merge_single : SingleValueMapped w → SingleValueMapped w → SingleValueMapped w
  merge_single left right = elim (as_merger left.value) [
    | none ↦ right
    | some l ↦ elim (as_merger right.value) [
      | none ↦ right
      | some r ↦ elim (merge l r) [
        | ok result ↦ record right { value = of_merger result }
        | err e ↦ right
        | panic ↦ right
      ]
    ]
  ]

-- The two nested loops of both `Equals` methods: each element on the left must equal one on the
-- right. The inner loop does not stop at the first match; `none` is a panic.
module _ {A : Type 0} (same : A → A → Option Bool) where
  unfoldable pub found_in : A → List A → Bool → Option Bool
  found_in x [] found = some found
  found_in x (y ∷ ys) found = elim (same x y) [ none ↦ none | some b ↦ found_in x ys (found || b) ]

  unfoldable pub all_found : List A → List A → Option Bool
  unfolding found_in
  all_found [] ys = some true
  all_found (x ∷ xs) ys = elim (found_in x ys false) [
    | none ↦ none
    | some found ↦ elim found [ true ↦ all_found xs ys | false ↦ some false ]
  ]

  unfoldable pub lists_equal : List A → List A → Option Bool
  unfolding all_found
  lists_equal xs ys = if length xs == length ys then all_found xs ys else some false

module _ {w : Foreign} where
  unfoldable pub update_equals : Update w → Update w → Option Bool
  unfolding lists_equal
  update_equals u o = lists_equal value_equals u.values o.values

  unfoldable pub mapped_equals : Mapped w → Mapped w → Option Bool
  unfolding lists_equal
  mapped_equals m o =
      if str_eq m.context o.context && str_eq m.origin o.origin
      then lists_equal update_equals m.updates o.updates
      else some false
