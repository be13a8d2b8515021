-- ===== src/Mapper/Aggregate.antt =====
-- mapper/aggregate.go: a delta gets one more update, with what the expressions for its paths make of
-- it and of the values that came before.
use gosk.Prelude.{List, [], ◌∷◌, if◌then◌else◌, none, some, Outcome, ok}
use gosk.Prelude.Int.{ltb_ℤ}
use gosk.Prelude.Assoc.{lookup, insert}
use gosk.Message.Values.{Foreign}
use gosk.Message.Delta.{
  Update, Mapped, SingleValueMapped, zero_time, to_single_value_mapped, add_update,
}
use gosk.Mapper.Expressions.{Environment, single, Engine, new_expression_environment, run_expr}
use gosk.Mapper.Process.{MapError}
use gosk.Mapper.Modbus.{put_output}
use gosk.Mapper.ExpressionFilter.{ExpressionMappingConfig, Mappings, add_configs, replace_dots}

pub record AggregateMapper (w : Foreign) : Type 0 where
  pub aggregate_mappings : Mappings w
  pub env : Environment w

module _ {w : Foreign} (e : Engine w) where
  unfoldable pub new_aggregate_mapper : List (ExpressionMappingConfig w) → AggregateMapper w
  unfolding add_configs
  new_aggregate_mapper cs = record {
    aggregate_mappings = add_configs cs [];
    env = new_expression_environment;
  }

  -- The inner loop: the outputs of the mappings of one path. Errors are skipped.
  unfoldable pub put_outputs :
      Environment w → List (ExpressionMappingConfig w) → Update w → Update w
  put_outputs env [] u = u
  put_outputs env (c ∷ rest) u = elim (run_expr e env c.mapping) [
    | none ↦ put_outputs env rest u
    | some output ↦ put_outputs env rest (put_output e c.mapping.path output u)
  ]

  -- The newest timestamp and the last uuid of the values that have mappings.
  unfoldable pub stamp : SingleValueMapped w → Update w → Update w
  stamp s u = record u {
    timestamp = if ltb_ℤ u.timestamp s.timestamp then s.timestamp else u.timestamp;
    source = record u.source { uuid = s.source.uuid };
  }

  unfoldable pub aggregate_singles :
      Mappings w → List (SingleValueMapped w) → Environment w → Update w → Update w × Environment w
  unfolding put_outputs
  aggregate_singles mappings [] env u = (u, env)
  aggregate_singles mappings (s ∷ rest) env u = elim (lookup s.path mappings) [
    | none ↦ aggregate_singles mappings rest env u
    | some cs ↦
        let env' = insert (replace_dots s.path) (single s) env in
        aggregate_singles mappings rest env' (put_outputs env' cs (stamp s u))
  ]

  abbrev pub blank_update : Update w
  blank_update = record {
    source = record { label = "signalk"; type = "signalk"; uuid = 0; transfer_uuid = 0 };
    timestamp = zero_time;
    values = [];
  }

  abbrev pub with_update : Mapped w → Update w → Mapped w
  with_update m u = elim u.values [ [] ↦ m | v ∷ values ↦ add_update m u ]

  unfoldable pub aggregate :
      AggregateMapper w → Mapped w → Outcome MapError (Mapped w) × AggregateMapper w
  aggregate a m =
      let (u, env) =
        aggregate_singles a.aggregate_mappings (to_single_value_mapped m) a.env blank_update in
      (ok (with_update m u), record a { env = env })
