-- ===== src/Mapper/Json.antt =====
-- mapper/json.go, `DoMap`: a JSON object becomes a delta with one value for each path that a mapping
-- has an output for. The package encoding/json is the parameter `unmarshal`.
use gosk.Prelude.{ℕ, String, List, [], ◌∷◌, Option, none, some, Outcome, ok, err}
use gosk.Prelude.Assoc.{insert}
use gosk.Message.Values.{Foreign, GoValue, other}
use gosk.Message.Delta.{Source, Update, Mapped, add_update}
use gosk.Message.RawMessage.{Raw}
use gosk.Mapper.Process.{MapError, cannot_be_mapped}
use gosk.Mapper.Expressions.{MappingConfig, Engine, constant, new_expression_environment, run_expr}
use gosk.Mapper.Modbus.{put_found}

-- The configuration of a mapping adds nothing to a `MappingConfig`.
pub record JsonMapper (w : Foreign) : Type 0 where
  pub context : String
  pub protocol : String
  pub mappings : List (MappingConfig w)

abbrev pub new_json_mapper : {w : Foreign} → String → List (MappingConfig w) → JsonMapper w
new_json_mapper context mappings = record {
  context = context;
  protocol = "json";
  mappings = mappings;
}

module _ {w : Foreign} (e : Engine w) (unmarshal : List ℕ → Option w.Other) where
  -- What a mapping makes of a message. One that is no object is logged.
  unfoldable pub json_output : List ℕ → MappingConfig w → Option (GoValue w)
  json_output value c = elim (unmarshal value) [
    | none ↦ none
    | some object ↦
        run_expr e (insert "json" (constant (other object)) new_expression_environment) c
  ]

  -- The loop over the mappings.
  unfoldable pub map_objects : List ℕ → List (MappingConfig w) → Update w → Update w
  unfolding json_output
  map_objects value [] u = u
  map_objects value (c ∷ rest) u =
      map_objects value rest (put_found e c.path (json_output value c) u)

  abbrev pub json_source : JsonMapper w → Raw → Source
  json_source m r = record {
    label = r.connector;
    type = m.protocol;
    uuid = r.uuid;
    transfer_uuid = 0;
  }

  abbrev pub json_answer : JsonMapper w → Raw → Update w → Outcome MapError (Mapped w)
  json_answer m r u = elim u.values [
    | [] ↦ err (cannot_be_mapped r.value)
    | v ∷ values ↦
        ok (add_update (record { context = m.context; origin = m.context; updates = [] }) u)
  ]

  unfoldable pub map_json : JsonMapper w → Raw → Outcome MapError (Mapped w)
  unfolding map_objects
  map_json m r = json_answer m r (
      map_objects r.value m.mappings
        (record { source = json_source m r; timestamp = r.timestamp; values = [] }))
