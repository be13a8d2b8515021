-- ===== src/Mapper/AggregateLaws.antt =====
-- The update that mapper/aggregate.go adds: where it stands, and how new it is.
use mathlib.Core.Path.{subst}
use gosk.Prelude.{
  ◌≡◌, ◌≢◌, ◌⊎◌, refl, ap, ◌∙◌, sym, Option-cases, inl, inr, List, [], ◌∷◌, none, some, ok, arith,
  All,
}
use gosk.Prelude.Int.{ℤ, ◌≤ℤ◌}
use gosk.Prelude.Assoc.{lookup, insert}
use gosk.Message.Values.{Foreign}
use gosk.Message.Delta.{
  Time, Update, Mapped, SingleValueMapped, to_single_value_mapped, add_update, add_value,
}
use gosk.Mapper.Expressions.{Environment, Engine, single, run_expr}
use gosk.Mapper.Modbus.{put_output}
use gosk.Mapper.ExpressionFilter.{ExpressionMappingConfig, Mappings, replace_dots}
use gosk.Mapper.Aggregate.{
  AggregateMapper, put_outputs, stamp, aggregate_singles, blank_update, with_update, aggregate,
}

le_trans : (a b c : ℤ) → a ≤ℤ b → b ≤ℤ c → a ≤ℤ c
le_trans a b c h k = omega (arith, h, k)

module _ {w : Foreign} (e : Engine w) where
  timestamp-put_outputs :
      (env : Environment w) (cs : List (ExpressionMappingConfig w)) (u : Update w)
      → (put_outputs e env cs u).timestamp ≡ u.timestamp
  unfolding put_outputs put_output add_value
  timestamp-put_outputs env [] u = refl
  timestamp-put_outputs env (c ∷ rest) u = elim (Option-cases (run_expr e env c.mapping)) [
    | inl r ↦ rw (r, put_outputs) (timestamp-put_outputs env rest u)
    | inr (output, r) ↦
        rw (r, put_outputs)
          (timestamp-put_outputs env rest (put_output e c.mapping.path output u) ∙ ground (arith))
  ]

  stamp_newer :
      (s : SingleValueMapped w) (u : Update w)
      → (u.timestamp ≤ℤ (stamp e s u).timestamp) × (s.timestamp ≤ℤ (stamp e s u).timestamp)
  unfolding stamp
  stamp_newer s u = ground arith

  -- Whether a value is not newer than an update, if its path has mappings.
  abbrev pub IsCovered : Mappings w → Time → SingleValueMapped w → Type 0
  IsCovered mappings t s = (lookup s.path mappings ≡ none) ⊎ (s.timestamp ≤ℤ t)

  aggregate_skip :
      (mappings : Mappings w) (s : SingleValueMapped w) (ss : List (SingleValueMapped w))
      (env : Environment w) (u : Update w)
      → lookup s.path mappings ≡ none
      → aggregate_singles e mappings (s ∷ ss) env u ≡ aggregate_singles e mappings ss env u
  unfolding aggregate_singles
  aggregate_skip mappings s ss env u n = rw (n, aggregate_singles) refl

  aggregate_take :
      (mappings : Mappings w) (s : SingleValueMapped w) (ss : List (SingleValueMapped w))
      (env : Environment w) (u : Update w) (cs : List (ExpressionMappingConfig w))
      → lookup s.path mappings ≡ some cs
      → aggregate_singles e mappings (s ∷ ss) env u
        ≡ aggregate_singles e mappings ss
            (insert (replace_dots s.path) (single s) env)
            (put_outputs e (insert (replace_dots s.path) (single s) env) cs (stamp e s u))
  unfolding aggregate_singles
  aggregate_take mappings s ss env u cs y = rw (y, aggregate_singles) refl

  abbrev Bounds : Mappings w → List (SingleValueMapped w) → Update w → Time → Type 0
  Bounds mappings ss u t = (u.timestamp ≤ℤ t) × All (IsCovered mappings t) ss

  aggregate_singles-IsCovered :
      (mappings : Mappings w) (ss : List (SingleValueMapped w)) (env : Environment w) (u : Update w)
      → Bounds mappings ss u (aggregate_singles e mappings ss env u).0.timestamp
  aggregate_singles-IsCovered mappings [] env u = (unfold aggregate_singles in omega arith, tt)
  aggregate_singles-IsCovered mappings (s ∷ ss) env u =
      elim (Option-cases (lookup s.path mappings)) [
        | inl n ↦
            let (later, all) = aggregate_singles-IsCovered mappings ss env u in
            subst (λ r. Bounds mappings (s ∷ ss) u r.0.timestamp)
              (sym (aggregate_skip mappings s ss env u n)) (later, (inl n, all))
        | inr (cs, y) ↦
            let env' = insert (replace_dots s.path) (single s) env in
            let u' = put_outputs e env' cs (stamp e s u) in
            let (later, all) = aggregate_singles-IsCovered mappings ss env' u' in
            let (old, new) = stamp_newer s u in
            let end = (aggregate_singles e mappings ss env' u').0.timestamp in
            let reached : (stamp e s u).timestamp ≤ℤ end =
              subst (λ x. x ≤ℤ end) (timestamp-put_outputs env' cs (stamp e s u)) later in
            subst (λ r. Bounds mappings (s ∷ ss) u r.0.timestamp)
              (sym (aggregate_take mappings s ss env u cs y))
              (
                le_trans u.timestamp (stamp e s u).timestamp end old reached,
                (inr (le_trans s.timestamp (stamp e s u).timestamp end new reached), all),
              )
      ]

  with_update-cases :
      (m : Mapped w) (u : Update w)
      → (with_update e m u ≡ m) ⊎ ((with_update e m u ≡ add_update m u) × (u.values ≢ []))
  with_update-cases m u = ground arith

  -- The aggregate mapper answers a delta with the delta itself, or with one more update behind it.
  -- That one has a value, and no value of the delta under a path with mappings is newer than it.
  pub aggregate-IsCovered :
      (a : AggregateMapper w) (m : Mapped w)
      → ((aggregate e a m).0 ≡ ok m)
        ⊎ ((u : Update w) × ((aggregate e a m).0 ≡ ok (add_update m u))
            × (u.values ≢ [])
            × All (IsCovered a.aggregate_mappings u.timestamp) (to_single_value_mapped m))
  unfolding aggregate
  aggregate-IsCovered a m =
      let singles = to_single_value_mapped m in
      let u = (aggregate_singles e a.aggregate_mappings singles a.env (blank_update e)).0 in
      let (_, all) =
        aggregate_singles-IsCovered a.aggregate_mappings singles a.env (blank_update e) in
      elim (with_update-cases m u) [
        | inl h ↦ inl (ap ok h)
        | inr (h, some_value) ↦ inr (u, ap ok h, some_value, all)
      ]
