-- ===== src/Message/Flatten.antt =====
-- Splitting a delta into single values and building deltas from them, in message/mapped.go.
use mathlib.Core.List.{append_assoc, append-nil}
use gosk.Prelude.{
  ℕ, suc, ◌+◌, ◌≡◌, refl, ap, ◌∙◌, sym, String, List, [], ◌∷◌, ◌++◌, length, length-append, All,
  All-append, arith,
}
use gosk.Message.Values.{Foreign}
use gosk.Message.Delta.{
  Value, Update, Mapped, SingleValueMapped, add_update, of_update, of_updates,
  to_single_value_mapped, to_update, to_mapped,
}

module _ {w : Foreign} where
  -- A single value is what its own delta is split into.
  pub to_single_value_mapped-to_mapped :
      (s : SingleValueMapped w) → to_single_value_mapped (to_mapped s) ≡ s ∷ []
  unfolding to_single_value_mapped to_mapped
  to_single_value_mapped-to_mapped s = refl

  of_updates-append :
      (c o : String) (us vs : List (Update w))
      → of_updates c o (us ++ vs) ≡ of_updates c o us ++ of_updates c o vs
  of_updates-append c o [] vs = refl
  of_updates-append c o (u ∷ us) vs =
      rw (of_updates-append c o us vs) (sym (append_assoc (of_update c o u u.values) _ _))

  -- An update that is added shows up behind what the delta held before.
  pub to_single_value_mapped-add_update :
      (m : Mapped w) (u : Update w)
      → to_single_value_mapped (add_update m u)
        ≡ to_single_value_mapped m ++ of_update m.context m.origin u u.values
  unfolding to_single_value_mapped add_update
  to_single_value_mapped-add_update m u =
      rw (of_updates-append m.context m.origin m.updates (u ∷ []), append-nil)

  abbrev value_count : List (Update w) → ℕ
  value_count [] = 0
  value_count (u ∷ us) = length u.values + value_count us

  length-of_update :
      (c o : String) (u : Update w) (values : List (Value w))
      → length (of_update c o u values) ≡ length values
  length-of_update c o u [] = refl
  length-of_update c o u (v ∷ values) = ap suc (length-of_update c o u values)

  -- There is one single value for each value of each update.
  pub length-to_single_value_mapped :
      (m : Mapped w) → length (to_single_value_mapped m) ≡ value_count m.updates
  unfolding to_single_value_mapped
  length-to_single_value_mapped m = count m.context m.origin m.updates
    where
      count : (c o : String) (us : List (Update w)) → length (of_updates c o us) ≡ value_count us
      count c o [] = refl
      count c o (u ∷ us) = omega (
        arith,
        length-append (of_update c o u u.values) (of_updates c o us),
        length-of_update c o u u.values,
        count c o us,
      )

  -- The loop of the filters: one delta from the updates of every single value.
  abbrev pub collect : Mapped w → List (SingleValueMapped w) → Mapped w
  collect result [] = result
  collect result (s ∷ singles) = collect (add_update result (to_update s)) singles

  -- Whether a single value carries the context and origin of a delta.
  abbrev pub IsFrom : String → String → SingleValueMapped w → Type 0
  IsFrom c o s = (s.context ≡ c) × (s.origin ≡ o)

  of_update-IsFrom :
      (c o : String) (u : Update w) (values : List (Value w))
      → All (IsFrom c o) (of_update c o u values)
  of_update-IsFrom c o u [] = tt
  of_update-IsFrom c o u (v ∷ values) = ((refl, refl), of_update-IsFrom c o u values)

  of_updates-IsFrom : (c o : String) (us : List (Update w)) → All (IsFrom c o) (of_updates c o us)
  of_updates-IsFrom c o [] = tt
  of_updates-IsFrom c o (u ∷ us) =
      All-append (IsFrom c o) (of_update c o u u.values) _ (of_update-IsFrom c o u u.values)
        (of_updates-IsFrom c o us)

  pub to_single_value_mapped-IsFrom :
      (m : Mapped w) → All (IsFrom m.context m.origin) (to_single_value_mapped m)
  unfolding to_single_value_mapped
  to_single_value_mapped-IsFrom m = of_updates-IsFrom m.context m.origin m.updates

  same_single :
      (c o : String) (s : SingleValueMapped w)
      → IsFrom c o s
      → of_update c o (to_update s) (to_update s).values ≡ s ∷ []
  same_single c o s (hc, ho) = rw (← hc, ← ho)

  -- Single values of one delta that are collected into a delta of the same context and origin are
  -- its single values again, in the same order.
  pub to_single_value_mapped-collect :
      (result : Mapped w) (singles : List (SingleValueMapped w))
      → All (IsFrom result.context result.origin) singles
      → to_single_value_mapped (collect result singles) ≡ to_single_value_mapped result ++ singles
  to_single_value_mapped-collect result [] h = sym (append-nil _)
  to_single_value_mapped-collect result (s ∷ singles) (here, later) =
      to_single_value_mapped-collect (add_update result (to_update s)) singles
        (unfold add_update in later)
      ∙ rw (
        to_single_value_mapped-add_update result (to_update s),
        same_single result.context result.origin s here,
        append_assoc,
      )

  abbrev pub empty_like : Mapped w → Mapped w
  empty_like m = record { context = m.context; origin = m.origin; updates = [] }

  -- A delta that is split into single values and collected again holds the same single values.
  pub collect-to_single_value_mapped :
      (m : Mapped w)
      → to_single_value_mapped (collect (empty_like m) (to_single_value_mapped m))
        ≡ to_single_value_mapped m
  collect-to_single_value_mapped m =
      to_single_value_mapped-collect (empty_like m) (to_single_value_mapped m)
        (to_single_value_mapped-IsFrom m)
      ∙ unfold to_single_value_mapped in refl
