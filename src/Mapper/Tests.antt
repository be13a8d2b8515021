-- ===== src/Mapper/Tests.antt =====
-- The theorems about the filters of mapper/ at concrete deltas.
use gosk.Prelude.{
  ◌⊎◌, ◌≢◌, All, ℕ, ◌≡◌, refl, inl, ◌+◌, ◌%◌, ltb, Bool, false, true, String, List, [], ◌∷◌,
  if◌then◌else◌, Option, none, some, Outcome, ok, arith, str_eq, length,
}
use gosk.Prelude.Int.{pos, ◌-ℤ◌}
use gosk.Message.Delta.{add_update, Mapped, Update, Value, new_source, to_single_value_mapped}
use gosk.Message.Values.{boolean, int64}
use gosk.Message.Samples.{sample, decoder, speed, depth, delta_of}
use gosk.Mapper.Process.{MapError, process_mapped, process}
use gosk.Mapper.RateLimit.{RateLimitFilter, interval_of, limit, new_rate_limit_filter}
use gosk.Mapper.RateLimit.Thinning.{thin, series}
use gosk.Mapper.RateLimit.Run.{
  last_at, SpacedAfter, series-process_mapped, process_mapped-SpacedAfter,
}
use gosk.Mapper.Expressions.{Environment, Engine, MappingConfig, new_expression_environment}
use gosk.Mapper.Registers.{register_delta, as_registers, get}
use gosk.Message.RawMessage.{Raw}
use gosk.Mapper.Modbus.{ModbusMappingsConfig, ModbusMapper, map_frame, map_raw}
use gosk.Mapper.ModbusDeltas.{register_delta-wrapped}
use gosk.Mapper.ModbusSafety.{IsEnvSafe, process-IsEnvSafe}
use gosk.Prelude.Assoc.{lookup}
use gosk.Mapper.RateLimit.Thinning.{at_path}
use gosk.Mapper.ExpressionFilter.{ExpressionFilter, filter_mapped}
use gosk.Mapper.ExpressionFilterLaws.{at_path-filter_mapped}
use gosk.Mapper.Aggregate.{AggregateMapper, aggregate}
use gosk.Mapper.AggregateLaws.{IsCovered, aggregate-IsCovered}

abbrev at_time : ℕ → Update sample
at_time t = record { source = new_source; timestamp = pos t; values = speed t ∷ depth t ∷ [] }

abbrev arrivals : List (Mapped sample)
arrivals = delta_of (at_time 1 ∷ at_time 5 ∷ []) ∷ delta_of (at_time 20 ∷ []) ∷ []

abbrev slow_speed : RateLimitFilter
slow_speed = record {
  default_interval = pos 0;
  last_seen = [];
  rate_limit = ("navigation.speed", pos 10) ∷ [];
}

-- The second speed comes too early.
speeds_pass :
    series "ship" "navigation.speed" (process_mapped limit slow_speed arrivals).0
    ≡ to_single_value_mapped (
        delta_of (
          record { source = new_source; timestamp = pos 1; values = speed 1 ∷ [] }
          ∷ record { source = new_source; timestamp = pos 20; values = speed 20 ∷ [] }
          ∷ []))
unfolding process_mapped limit to_single_value_mapped gosk.Mapper.RateLimit.filter_values
    gosk.Mapper.RateLimit.is_due gosk.Prelude.Assoc.lookup gosk.Prelude.Assoc.insert
    gosk.Prelude.Int.◌-ℤ◌ interval_of gosk.Message.Delta.add_update
speeds_pass = refl

series-process_mapped_example :
    series "ship" "navigation.speed" (process_mapped limit slow_speed arrivals).0
    ≡ thin
        (interval_of slow_speed "navigation.speed")
        (last_at slow_speed "ship" "navigation.speed")
        (series "ship" "navigation.speed" arrivals)
series-process_mapped_example = series-process_mapped "ship" "navigation.speed" slow_speed arrivals

process_mapped-SpacedAfter_test :
    SpacedAfter
      (interval_of slow_speed "navigation.speed")
      (last_at slow_speed "ship" "navigation.speed")
      (series "ship" "navigation.speed" (process_mapped limit slow_speed arrivals).0)
process_mapped-SpacedAfter_test =
    process_mapped-SpacedAfter "ship" "navigation.speed" slow_speed arrivals

-- A counter that went from 65530 to 4, and so up by 10.
register_delta-wrapped_test :
    register_delta ((65_530 + 10) % 65536) 65_530
    ≡ (if ltb (65_530 + 10) 65536 then pos 10 else pos 10 -ℤ pos 1)
register_delta-wrapped_test = register_delta-wrapped 65_530 10 (omega arith) (omega arith)

-- The only expression is "count", the number of entries in the environment.
abbrev counting : Engine sample
counting = record {
  Program = String;
  compile = λ text env. if str_eq text "count" then some text else none;
  execute = λ text env. some (int64 (pos (length env)));
  is_map = λ o. false;
  decoder = decoder;
}

abbrev counted : String → String → ModbusMappingsConfig sample
counted text path = record {
  mapping = record { expression = text; expression_environment = []; path = path };
  header = record {
    slave = 1;
    function_code = 4;
    address = 51_436;
    number_of_coils_or_registers = 2;
  };
}

abbrev fresh_mapper : ModbusMapper sample
fresh_mapper = record {
  context = "ship";
  mappings =
      counted "bad" "a"
      ∷ counted "count" "a"
      ∷ counted "count" "a"
      ∷ record (counted "count" "b") {
        header = record (counted "" "").header { function_code = 3 };
      }
      ∷ [];
  env = new_expression_environment;
}

abbrev frame : Raw
frame = record {
  connector = "plc";
  timestamp = pos 7;
  type = "modbus";
  uuid = 3;
  value = 1 ∷ 0 ∷ 4 ∷ 0xc8 ∷ 0xec ∷ 0 ∷ 2 ∷ 0 ∷ 1 ∷ 0x8e ∷ 0x70 ∷ [];
}

abbrev mapped_frame : Outcome MapError (Mapped sample) × ModbusMapper sample
mapped_frame = map_frame counting fresh_mapper frame (counted "" "").header (1 ∷ 36_464 ∷ [])

process-IsEnvSafe_example :
    (m' : ModbusMapper sample) × ((process (map_raw counting) fresh_mapper (frame ∷ frame ∷ [])).1
      ≡ some m')
    × IsEnvSafe m'.env
unfolding gosk.Prelude.Assoc.lookup
process-IsEnvSafe_example = process-IsEnvSafe counting fresh_mapper (frame ∷ frame ∷ []) (inl refl)

-- The first mapping fails, the second counts seven entries, the third has its path already, and the
-- fourth is for another function.
abbrev frame_delta : Mapped sample
frame_delta = record {
  context = "ship";
  origin = "ship";
  updates =
      record {
        source = record { label = "plc"; type = "modbus"; uuid = 3; transfer_uuid = 0 };
        timestamp = pos 7;
        values = record { path = "a"; value = int64 (pos 7) } ∷ [];
      }
      ∷ [];
}

-- Every expression is true, so the depth is dropped.
abbrev agreeing : Engine sample
agreeing = record counting {
  compile = λ text env. some text;
  execute = λ text env. some (boolean true);
}

abbrev no_depth : ExpressionFilter sample
no_depth = record {
  filter_mappings =
      (
        "environment.depth",
        record { mapping = (counted "" "").mapping; source_paths = "environment.depth" ∷ [] } ∷ [],
      )
      ∷ [];
  env = new_expression_environment;
}

abbrev speed_only : Mapped sample
speed_only =
    delta_of (record { source = new_source; timestamp = pos 1; values = speed 1 ∷ [] } ∷ [])

abbrev filtered : Outcome MapError (Mapped sample) × ExpressionFilter sample
filtered = filter_mapped agreeing no_depth (delta_of (at_time 1 ∷ []))

depth_filtered : filtered ≡ (ok speed_only, filtered.1)
unfolding filter_mapped gosk.Mapper.ExpressionFilter.filter_singles to_single_value_mapped lookup
    gosk.Mapper.ExpressionFilter.should_skip gosk.Mapper.Expressions.run_expr
    gosk.Mapper.Expressions.merge_environments gosk.Mapper.Expressions.decoded
    gosk.Message.Delta.add_update
depth_filtered = refl

no_speed : lookup "navigation.speed" no_depth.filter_mappings ≡ none
unfolding lookup
no_speed = refl

at_path-filter_mapped_example :
    at_path "navigation.speed" (to_single_value_mapped speed_only)
    ≡ at_path "navigation.speed" (to_single_value_mapped (delta_of (at_time 1 ∷ [])))
at_path-filter_mapped_example =
    at_path-filter_mapped agreeing no_depth filtered.1 (delta_of (at_time 1 ∷ [])) speed_only
      "navigation.speed" no_speed depth_filtered

abbrev depth_counter : AggregateMapper sample
depth_counter = record {
  aggregate_mappings =
      (
        "environment.depth",
        record { mapping = (counted "count" "a").mapping; source_paths = "environment.depth" ∷ [] }
            ∷ [],
      )
      ∷ [];
  env = new_expression_environment;
}

aggregate-IsCovered_example :
    ((aggregate counting depth_counter (delta_of (at_time 1 ∷ []))).0
      ≡ ok (delta_of (at_time 1 ∷ [])))
    ⊎ ((u : Update sample) × ((aggregate counting depth_counter (delta_of (at_time 1 ∷ []))).0
          ≡ ok (add_update (delta_of (at_time 1 ∷ [])) u))
        × (u.values ≢ [])
        × All
            (IsCovered counting depth_counter.aggregate_mappings u.timestamp)
            (to_single_value_mapped (delta_of (at_time 1 ∷ []))))
aggregate-IsCovered_example = aggregate-IsCovered counting depth_counter (delta_of (at_time 1 ∷ []))
