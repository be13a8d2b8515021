-- ===== src/Mapper/ExpressionFilterLaws.antt =====
-- What mapper/expression_filter.go never does: change, move or drop a value without a mapping.
use gosk.Prelude.{
  ◌≡◌, refl, ap, ◌∙◌, true, false, Bool-cases, inl, inr, String, str_eq, eq_iff, List, [], ◌∷◌,
  ◌++◌, none, Outcome-cases, ok, arith, All,
}
use gosk.Prelude.Assoc.{lookup}
use gosk.Message.Values.{Foreign}
use gosk.Message.Delta.{
  Mapped, SingleValueMapped, to_single_value_mapped, add_update, to_update, to_mapped,
}
use gosk.Message.Flatten.{
  collect, empty_like, IsFrom, to_single_value_mapped-IsFrom, to_single_value_mapped-collect,
}
use gosk.Mapper.Expressions.{Environment, Engine}
use gosk.Mapper.ExpressionFilter.{
  ExpressionFilter, Mappings, is_dropped, filter_singles, filter_mapped,
}
use gosk.Mapper.RateLimit.Thinning.{at_path}

module _ {w : Foreign} (e : Engine w) where
  dropped-has_mapping :
      (mappings : Mappings w) (p : String) (s : SingleValueMapped w) (env : Environment w)
      → lookup p mappings ≡ none
      → is_dropped e mappings s env ≡ ok true
      → str_eq s.path p ≡ false
  dropped-has_mapping mappings p s env free dropped = elim (Bool-cases (str_eq s.path p)) [
    | inl same ↦
        let none_here : lookup s.path mappings ≡ none =
          ap (λ q. lookup q mappings) ((eq_iff s.path p).0 same) ∙ free in
        absurd (ground (arith, none_here, dropped))
    | inr other ↦ other
  ]

  -- What the loop adds to the result: single values that it was given, in order, among them all those
  -- under a path without a mapping.
  filter_singles-collect :
      (mappings : Mappings w) (p c o : String)
      → lookup p mappings ≡ none
      → (ss : List (SingleValueMapped w)) (env : Environment w) (result out : Mapped w)
      → All (IsFrom c o) ss
      → (filter_singles e mappings ss env result).0 ≡ ok out
      → (passed : List (SingleValueMapped w)) × (out ≡ collect result passed)
        × (at_path p passed ≡ at_path p ss)
        × All (IsFrom c o) passed
  unfolding filter_singles to_mapped
  filter_singles-collect mappings p c o free [] env result out from h =
      ([], ground (arith, h), refl, tt)
  filter_singles-collect mappings p c o free (s ∷ ss) env result out (here, from) h =
      elim (Outcome-cases (is_dropped e mappings s env)) [
        | inl (true, d) ↦
            let other = dropped-has_mapping mappings p s env free d in
            rw other (
              filter_singles-collect mappings p c o free ss _ result out from
                (rw (d, filter_singles) at h))
        | inl (false, d) ↦
            let (passed, made, same, all) =
              filter_singles-collect mappings p c o free ss _ (add_update result (to_update s)) out
                from (rw (d, filter_singles) at h) in
            (s ∷ passed, made, rw same refl, (here, all))
        | inr (inl (x, d)) ↦ absurd (ground (arith, (rw (d, filter_singles) at h)))
        | inr (inr d) ↦ absurd (ground (arith, (rw (d, filter_singles) at h)))
      ]

  empty_singles : (m : Mapped w) → to_single_value_mapped (empty_like m) ≡ []
  unfolding to_single_value_mapped
  empty_singles m = refl

  -- If the filter answers a delta with a delta, the values under a path without a mapping come out
  -- unchanged and in the same order.
  pub at_path-filter_mapped :
      (f f' : ExpressionFilter w) (m out : Mapped w) (p : String)
      → lookup p f.filter_mappings ≡ none
      → filter_mapped e f m ≡ (ok out, f')
      → at_path p (to_single_value_mapped out) ≡ at_path p (to_single_value_mapped m)
  unfolding filter_mapped
  at_path-filter_mapped f f' m out p free h =
      let (passed, made, same, from) =
        filter_singles-collect f.filter_mappings p m.context m.origin free
          (to_single_value_mapped m) f.env (empty_like m) out (to_single_value_mapped-IsFrom m)
          (ap (λ x. x.0) h) in
      ap (λ o. at_path p (to_single_value_mapped o)) made
      ∙ ap (at_path p) (
          to_single_value_mapped-collect (empty_like m) passed from
          ∙ ap (λ x. x ++ passed) (empty_singles m))
      ∙ same
