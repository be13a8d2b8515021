-- ===== src/Mapper/CanBus.antt =====
-- mapper/canbus.go, `NewCanBusMapper` and `DoMap`: the frame of a raw message becomes a delta with one
-- value for each of its signals that is mapped. The parser of DBC files
-- (go.einride.tech/can/pkg/dbc) has given the definitions of the messages.
use gosk.Prelude.{ℕ, String, List, [], ◌∷◌, Option, none, some, Outcome, ok, err, panic}
use gosk.Prelude.Assoc.{Assoc, lookup, insert}
use gosk.Message.Values.{Foreign, GoValue, float64}
use gosk.Message.Delta.{Source, Update, Mapped, add_value, add_update}
use gosk.Message.RawMessage.{Raw}
use gosk.Mapper.Process.{MapError}
use gosk.Mapper.Expressions.{
  Environment, MappingConfig, Engine, constant, new_expression_environment, run_expr,
}
use gosk.Mapper.CanFrame.{CanFrame, create_frame}
use gosk.Mapper.CanSignal.{SignalDef, Signal, Arithmetic, extract_signal}

pub record CanBusMappingConfig (w : Foreign) : Type 0 where
  pub mapping : MappingConfig w
  pub name : String
  pub origin : String

-- The fields of `dbc.MessageDef` that the code reads.
pub record MessageDef (w : Foreign) : Type 0 where
  pub name : String
  pub signals : List (SignalDef w)

-- The map `dbc`, from `readDBC`, is a function.
pub record CanBusMapper (w : Foreign) : Type 0 where
  pub context : String
  pub protocol : String
  pub dbc : ℕ → Option (MessageDef w)
  pub canbus_mappings : Assoc (Assoc (CanBusMappingConfig w))

module _ {w : Foreign} where
  abbrev pub or_new : Option (Assoc (CanBusMappingConfig w)) → Assoc (CanBusMappingConfig w)
  or_new none = []
  or_new (some present) = present

  abbrev pub add_mapping :
      Assoc (Assoc (CanBusMappingConfig w))
      → CanBusMappingConfig w
      → Assoc (Assoc (CanBusMappingConfig w))
  add_mapping mappings m =
      insert m.origin (insert m.name m (or_new (lookup m.origin mappings))) mappings

  -- The loop of `NewCanBusMapper`.
  unfoldable pub add_mappings :
      List (CanBusMappingConfig w)
      → Assoc (Assoc (CanBusMappingConfig w))
      → Assoc (Assoc (CanBusMappingConfig w))
  add_mappings [] mappings = mappings
  add_mappings (m ∷ configs) mappings = add_mappings configs (add_mapping mappings m)

  -- `m.canbusMappings[origin][name]`; a missing map is a nil map, which has no keys.
  unfoldable pub find_mapping :
      Assoc (Assoc (CanBusMappingConfig w)) → String → String → Option (CanBusMappingConfig w)
  find_mapping mappings origin name = lookup name (or_new (lookup origin mappings))

  -- The configuration has the context, and `readDBC` gave the definitions.
  abbrev pub new_can_bus_mapper :
      String → (ℕ → Option (MessageDef w)) → List (CanBusMappingConfig w) → CanBusMapper w
  new_can_bus_mapper context dbc configs = record {
    context = context;
    protocol = "canbus";
    dbc = dbc;
    canbus_mappings = add_mappings configs [];
  }

module _ {w : Foreign} (e : Engine w) (floats : Arithmetic w) where
  -- An expression that fails is logged.
  abbrev pub add_output : String → Option (GoValue w) → Update w → Update w
  add_output path none u = u
  add_output path (some output) u = add_value u (record { path = path; value = output })

  abbrev pub env_of : Signal w → Environment w
  env_of val = insert "value" (constant (float64 val.value)) new_expression_environment

  abbrev pub map_found : Signal w → Option (CanBusMappingConfig w) → Update w → Update w
  map_found val none u = u
  map_found val (some found) u =
      add_output found.mapping.path (run_expr e (env_of val) found.mapping) u

  -- The body of the loop over the signals.
  abbrev pub map_signal : CanBusMapper w → Signal w → Update w → Update w
  map_signal m val u = map_found val (find_mapping m.canbus_mappings val.origin val.name) u

  unfoldable pub map_signals :
      CanBusMapper w → String → CanFrame → List (SignalDef w) → Update w → Update w
  map_signals m origin frm [] u = u
  map_signals m origin frm (signal ∷ signals) u =
      map_signals m origin frm signals
        (map_signal m (extract_signal floats signal origin frm.bytes) u)

  abbrev pub can_source : CanBusMapper w → Raw → Source
  can_source m r = record {
    label = r.connector;
    type = m.protocol;
    uuid = r.uuid;
    transfer_uuid = 0;
  }

  abbrev pub map_message : CanBusMapper w → CanFrame → Option (MessageDef w) → Update w → Update w
  map_message m frm none u = u
  map_message m frm (some mappings) u = map_signals m mappings.name frm mappings.signals u

  -- `DoMap` behind `createFrame`. A frame without a definition gives an update without values.
  unfoldable pub map_can_frame : CanBusMapper w → Raw → CanFrame → Mapped w
  unfolding map_signals
  map_can_frame m r frm =
      add_update (record { context = m.context; origin = m.context; updates = [] })
        (map_message m frm (m.dbc frm.id)
          (record { source = can_source m r; timestamp = r.timestamp; values = [] }))

  unfoldable pub map_can : CanBusMapper w → List ℕ → Raw → Outcome MapError (Mapped w)
  unfolding map_can_frame
  map_can m spare r = elim (create_frame spare r.value) [
    | ok frm ↦ ok (map_can_frame m r frm)
    | err x ↦ err x
    | panic ↦ panic
  ]
