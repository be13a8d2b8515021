-- ===== src/Mapper/ExpressionFilter.antt =====
-- mapper/expression_filter.go: a value is dropped if one of the expressions for its path says so.
use Prim.Native.Char.{code}
use gosk.Prelude.{
  Bool, true, false, ◌==◌, ◌||◌, String, List, [], ◌∷◌, ◌++◌, if◌then◌else◌, Option, none, some,
  Outcome, ok, err, panic,
}
use gosk.Prelude.Assoc.{Assoc, lookup, insert}
use gosk.Message.Values.{Foreign, boolean}
use gosk.Message.Delta.{Mapped, SingleValueMapped, to_single_value_mapped, to_mapped}
use gosk.Mapper.Expressions.{
  Environment, single, MappingConfig, Engine, new_expression_environment, run_expr,
}
use gosk.Mapper.Process.{MapError, expression_failed, not_a_boolean, add_updates}

pub record ExpressionMappingConfig (w : Foreign) : Type 0 where
  pub mapping : MappingConfig w
  pub source_paths : List String

-- `strings.ReplaceAll(path, ".", "_")`
unfoldable pub replace_dots : String → String
replace_dots String.[] = String.[]
replace_dots (String.◌∷◌ c s) = String.◌∷◌ (if code c == 46 then "_" else c) (replace_dots s)

abbrev pub Mappings : Foreign → Type 0
Mappings w = Assoc (List (ExpressionMappingConfig w))

pub record ExpressionFilter (w : Foreign) : Type 0 where
  pub filter_mappings : Mappings w
  pub env : Environment w

module _ {w : Foreign} where
  abbrev pub mappings_of :
      Option (List (ExpressionMappingConfig w)) → List (ExpressionMappingConfig w)
  mappings_of none = []
  mappings_of (some cs) = cs

  -- `mappings[s] = append(mappings[s], m)` for each source path of a configuration, and for each
  -- configuration.
  unfoldable pub add_paths : ExpressionMappingConfig w → List String → Mappings w → Mappings w
  add_paths c [] m = m
  add_paths c (s ∷ rest) m = add_paths c rest (insert s (mappings_of (lookup s m) ++ c ∷ []) m)

  unfoldable pub add_configs : List (ExpressionMappingConfig w) → Mappings w → Mappings w
  unfolding add_paths
  add_configs [] m = m
  add_configs (c ∷ rest) m = add_configs rest (add_paths c c.source_paths m)

  unfoldable pub new_expression_filter : List (ExpressionMappingConfig w) → ExpressionFilter w
  unfolding add_configs
  new_expression_filter cs = record {
    filter_mappings = add_configs cs [];
    env = new_expression_environment;
  }

module _ {w : Foreign} (e : Engine w) where
  -- The inner loop, with `shouldSkip` so far.
  unfoldable pub should_skip :
      Environment w → List (ExpressionMappingConfig w) → Bool → Outcome MapError Bool
  should_skip env [] skip = ok skip
  should_skip env (c ∷ rest) skip = elim (run_expr e env c.mapping) [
    | none ↦ err expression_failed
    | some (boolean b) ↦ should_skip env rest (skip || b)
    | some output ↦ err not_a_boolean
  ]

  -- What a value does: the environment gets it if its path has mappings.
  abbrev pub env_with : Mappings w → SingleValueMapped w → Environment w → Environment w
  env_with mappings s env = elim (lookup s.path mappings) [
    | none ↦ env
    | some cs ↦ insert (replace_dots s.path) (single s) env
  ]

  abbrev pub is_dropped : Mappings w → SingleValueMapped w → Environment w → Outcome MapError Bool
  is_dropped mappings s env = elim (lookup s.path mappings) [
    | none ↦ ok false
    | some cs ↦ should_skip (insert (replace_dots s.path) (single s) env) cs false
  ]

  -- The loop over the single values: the delta or the first error, and the environment.
  unfoldable pub filter_singles :
      Mappings w
      → List (SingleValueMapped w)
      → Environment w
      → Mapped w
      → Outcome MapError (Mapped w) × Environment w
  unfolding to_mapped
  filter_singles mappings [] env result = (ok result, env)
  filter_singles mappings (s ∷ rest) env result =
      let env' = env_with mappings s env in
      elim (is_dropped mappings s env) [
        | ok true ↦ filter_singles mappings rest env' result
        | ok false ↦ filter_singles mappings rest env' (add_updates result (to_mapped s).updates)
        | err x ↦ (err x, env')
        | panic ↦ (panic, env')
      ]

  unfoldable pub filter_mapped :
      ExpressionFilter w → Mapped w → Outcome MapError (Mapped w) × ExpressionFilter w
  filter_mapped f delta =
      let empty : Mapped w = record {
        context = delta.context;
        origin = delta.origin;
        updates = [];
      } in
      let (out, env) =
        filter_singles f.filter_mappings (to_single_value_mapped delta) f.env empty in
      (out, record f { env = env })
