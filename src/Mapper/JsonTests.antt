-- ===== src/Mapper/JsonTests.antt =====
-- The theorem about mapper/json.go at a message with two mappings for one path.
use gosk.Prelude.{ℕ, ◌≡◌, refl, String, List, Option, [], ◌∷◌, some}
use gosk.Prelude.Int.{pos}
use gosk.Prelude.Assoc.{lookup, insert}
use gosk.Message.Values.{other}
use gosk.Message.Delta.{Update, Mapped, add_update, add_value, get_value_by_path}
use gosk.Message.RawMessage.{Raw}
use gosk.Message.Samples.{sample}
use gosk.Mapper.Expressions.{MappingConfig, run_expr, merge_environments, decoded}
use gosk.Mapper.Modbus.{put_output}
use gosk.Mapper.ModbusValues.{value_at}
use gosk.Mapper.Samples.{naming}
use gosk.Mapper.Json.{JsonMapper, new_json_mapper, map_json}
use gosk.Mapper.JsonLaws.{first_json, value_at-map_json}

abbrev unmarshal : List ℕ → Option (Unit {0})
unmarshal bytes = some tt

abbrev mapping : String → String → MappingConfig sample
mapping expression path = record {
  expression = expression;
  expression_environment = [];
  path = path;
}

abbrev mapper : JsonMapper sample
mapper = new_json_mapper "ship" (
    mapping "missing" "navigation.speed"
    ∷ mapping "json" "navigation.speed"
    ∷ mapping "json" "navigation.speed"
    ∷ [])

abbrev raw : Raw
raw = record { connector = "http"; timestamp = pos 5; type = "json"; uuid = 9; value = [] }

abbrev delta : Mapped sample
delta = record {
  context = "ship";
  origin = "ship";
  updates =
      record {
        source = record { label = "http"; type = "json"; uuid = 9; transfer_uuid = 0 };
        timestamp = pos 5;
        values = record { path = "navigation.speed"; value = other tt } ∷ [];
      }
      ∷ [];
}

value_at-map_json_test :
    (u : Update sample) × (delta.updates ≡ u ∷ [])
    × ((p : String) → value_at naming u p ≡ first_json naming unmarshal [] mapper.mappings p)
unfolding map_json run_expr merge_environments decoded lookup insert put_output get_value_by_path
    add_value add_update
value_at-map_json_test = value_at-map_json naming unmarshal mapper raw delta refl
