-- ===== src/Mapper/Expressions.antt =====
-- mapper/expressions.go, the environment of an expression and `runExpr`. The compiler and the machine
-- of github.com/antonmedv/expr are the parameter `Engine`.
use gosk.Prelude.{ℕ, Bool, String, List, [], ◌∷◌, if◌then◌else◌, Option, none, some, ok, err, panic}
use gosk.Prelude.Int.{ℤ}
use gosk.Prelude.Assoc.{Assoc, lookup, insert}
use gosk.Message.Values.{Foreign, GoValue, other}
use gosk.Message.Delta.{Time, SingleValueMapped}
use gosk.Message.Decoding.{Mapstructure, decode}

-- The values that the mappers put into an environment; `helper` is one of the three functions that
-- every environment starts with. A Go map from `int` is a list of pairs.
pub data EnvValue (w : Foreign) : Type 0 where
  helper : String → EnvValue w
  coils : List (ℕ × Bool) → EnvValue w
  registers : List (ℕ × ℕ) → EnvValue w
  deltas : List (ℕ × ℤ) → EnvValue w
  timestamps : List (ℕ × Time) → EnvValue w
  time_deltas : List (ℕ × ℤ) → EnvValue w
  single : SingleValueMapped w → EnvValue w
  constant : GoValue w → EnvValue w
  -- Go texts as bytes
  string_values : List (List ℕ) → EnvValue w
  float_values : List w.Float → EnvValue w
  int_values : List ℤ → EnvValue w

abbrev pub Environment : Foreign → Type 0
Environment w = Assoc (EnvValue w)

-- `CompiledExpression` is nil at each call, since `runExpr` gets a copy: it is left out.
pub record MappingConfig (w : Foreign) : Type 0 where
  pub expression : String
  pub expression_environment : Environment w
  pub path : String

-- What the code asks of the packages expr and mapstructure; `none` is an error.
pub record Engine (w : Foreign) : Type 1 where
  pub Program : Type 0
  pub compile : String → Environment w → Option Program
  pub execute : Program → Environment w → Option (GoValue w)
  pub is_map : w.Other → Bool
  pub decoder : Mapstructure w

module _ {w : Foreign} where
  abbrev pub new_expression_environment : Environment w
  new_expression_environment =
      ("currentToRatio", helper "CurrentToRatio")
      ∷ ("pressureToHeight", helper "PressureToHeight")
      ∷ ("heightToVolume", helper "HeightToVolume")
      ∷ []

  -- The second loop of `mergeEnvironments`; the first one copies `left`.
  unfoldable pub merge_into : Environment w → Environment w → Environment w → Option (Environment w)
  merge_into left [] result = some result
  merge_into left ((k, v) ∷ right) result = elim (lookup k left) [
    | none ↦ merge_into left right (insert k v result)
    | some taken ↦ none
  ]

  unfoldable pub merge_environments : Environment w → Environment w → Option (Environment w)
  unfolding merge_into
  merge_environments left right = merge_into left right left

  -- The last step of `runExpr`: a map becomes a value type if `Decode` takes it.
  unfoldable pub decoded : Engine w → GoValue w → GoValue w
  decoded e (other o) =
      if e.is_map o
      then elim (decode e.decoder (other o)) [ ok v ↦ v | err x ↦ other o | panic ↦ other o ]
      else other o
  decoded e v = v

  -- Errors are logged, and then all treated alike: `none`.
  unfoldable pub run_expr : Engine w → Environment w → MappingConfig w → Option (GoValue w)
  run_expr e env c = elim (merge_environments env c.expression_environment) [
    | none ↦ none
    | some merged ↦ elim (e.compile c.expression merged) [
      | none ↦ none
      | some program ↦ elim (e.execute program merged) [
        | none ↦ none
        | some output ↦ some (decoded e output)
      ]
    ]
  ]
