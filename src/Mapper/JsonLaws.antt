-- ===== src/Mapper/JsonLaws.antt =====
-- The value that `DoMap` of mapper/json.go gives a path: the first mapping that has an output wins.
use gosk.Prelude.{
  ℕ, ◌≡◌, ◌∙◌, String, str_eq, List, [], ◌∷◌, if◌then◌else◌, Option, none, ok, arith,
}
use gosk.Message.Values.{Foreign, GoValue}
use gosk.Message.Delta.{Update, Mapped, add_update, get_value_by_path}
use gosk.Message.RawMessage.{Raw}
use gosk.Mapper.Expressions.{MappingConfig, Engine}
use gosk.Mapper.ModbusValues.{value_at, or_else, value_at-put_found, or_else_assoc}
use gosk.Mapper.Json.{JsonMapper, json_output, map_objects, json_answer, map_json}

module _ {w : Foreign} (e : Engine w) (unmarshal : List ℕ → Option w.Other) where
  -- The first output that the mappings of a path have for a message.
  abbrev pub first_json : List ℕ → List (MappingConfig w) → String → Option (GoValue w)
  first_json value [] p = none
  first_json value (c ∷ rest) p =
      or_else e (if str_eq c.path p then json_output e unmarshal value c else none)
        (first_json value rest p)

  value_at-map_objects :
      (value : List ℕ) (cs : List (MappingConfig w)) (u : Update w) (p : String)
      → value_at e (map_objects e unmarshal value cs u) p
        ≡ or_else e (value_at e u p) (first_json value cs p)
  unfolding map_objects
  value_at-map_objects value [] u p = ground arith
  value_at-map_objects value (c ∷ rest) u p =
      value_at-map_objects value rest _ p
      ∙ rw (value_at-put_found e c.path p (json_output e unmarshal value c) u)
          (or_else_assoc e (value_at e u p) _ (first_json value rest p))

  answer-updates :
      (m : JsonMapper w) (r : Raw) (u : Update w) (delta : Mapped w)
      → json_answer e unmarshal m r u ≡ ok delta
      → delta.updates ≡ u ∷ []
  unfolding add_update
  answer-updates m r u delta h = ground (arith, h)

  -- If the JSON mapper answers a message with a delta, that has one update, and under each path the
  -- output of the first mapping for this path that has one. Later mappings are without effect.
  pub value_at-map_json :
      (m : JsonMapper w) (r : Raw) (delta : Mapped w)
      → map_json e unmarshal m r ≡ ok delta
      → (u : Update w) × (delta.updates ≡ u ∷ [])
        × ((p : String) → value_at e u p ≡ first_json r.value m.mappings p)
  unfolding map_json get_value_by_path
  value_at-map_json m r delta h = (
    map_objects e unmarshal r.value m.mappings _,
    answer-updates m r _ delta h,
    λ p. value_at-map_objects r.value m.mappings _ p,
  )
