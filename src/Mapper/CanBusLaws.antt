-- ===== src/Mapper/CanBusLaws.antt =====
-- A CAN frame from connector/canbus.go to the delta of mapper/canbus.go.
use mathlib.Core.List.{append_assoc, append-nil}
use gosk.Prelude.{
  ℕ, ◌≡◌, refl, sym, ap, ◌∙◌, String, List, [], ◌∷◌, ◌++◌, panic, Option, none, some, Outcome, ok,
  err,
}
use gosk.Message.Values.{Foreign, GoValue}
use gosk.Message.Delta.{Value, Update, Mapped, add_value, add_update}
use gosk.Message.RawMessage.{Raw}
use gosk.Mapper.Process.{MapError}
use gosk.Mapper.Expressions.{Engine, run_expr}
use gosk.Mapper.CanFrame.{CanFrame, IsFrame, frame_to_bytes}
use gosk.Mapper.CanFrameLaws.{create_frame-frame_to_bytes}
use gosk.Mapper.CanMappings.{last_for, find-configs}
use gosk.Mapper.CanSignal.{SignalDef, Signal, Arithmetic, extract_signal}
use gosk.Mapper.CanBus.{
  CanBusMappingConfig, MessageDef, CanBusMapper, add_mappings, find_mapping, new_can_bus_mapper,
  add_output, env_of, map_found, map_message, map_signals, can_source, map_can_frame, map_can,
}

module _ {w : Foreign} (e : Engine w) (floats : Arithmetic w) where
  abbrev output_at : String → Option (GoValue w) → List (Value w)
  output_at path none = []
  output_at path (some output) = record { path = path; value = output } ∷ []

  -- What the mapping of a signal makes of its value.
  abbrev pub value_of_config : Signal w → Option (CanBusMappingConfig w) → List (Value w)
  value_of_config val none = []
  value_of_config val (some found) =
      output_at found.mapping.path (run_expr e (env_of e floats val) found.mapping)

  abbrev pub values_of_signals :
      List (CanBusMappingConfig w) → String → CanFrame → List (SignalDef w) → List (Value w)
  values_of_signals configs origin frm [] = []
  values_of_signals configs origin frm (s ∷ signals) =
      value_of_config (extract_signal floats s origin frm.bytes) (last_for origin s.name configs)
      ++ values_of_signals configs origin frm signals

  -- The values that the signals of a message have in a frame, in the order of the signals.
  abbrev pub signal_values :
      List (CanBusMappingConfig w) → CanFrame → Option (MessageDef w) → List (Value w)
  signal_values configs frm none = []
  signal_values configs frm (some message) =
      values_of_signals configs message.name frm message.signals

  abbrev adding : Update w → List (Value w) → Update w
  adding u values = record u { values = u.values ++ values }

  adding-nil : (u : Update w) → u ≡ adding u []
  adding-nil u =
      ap (λ (values : List (Value w)). record u { values = values }) (sym (append-nil u.values))

  add_output-adding :
      (path : String) (output : Option (GoValue w)) (u : Update w)
      → add_output e floats path output u ≡ adding u (output_at path output)
  unfolding add_value
  add_output-adding path none u = adding-nil u
  add_output-adding path (some output) u = refl

  map_found-adding :
      (val : Signal w) (found : Option (CanBusMappingConfig w)) (u : Update w)
      → map_found e floats val found u ≡ adding u (value_of_config val found)
  map_found-adding val none u = adding-nil u
  map_found-adding val (some found) u =
      add_output-adding found.mapping.path (run_expr e (env_of e floats val) found.mapping) u

  map_signals-adding :
      (context : String) (dbc : ℕ → Option (MessageDef w)) (configs : List (CanBusMappingConfig w))
      (origin : String) (frm : CanFrame) (signals : List (SignalDef w)) (u : Update w)
      → map_signals e floats (new_can_bus_mapper context dbc configs) origin frm signals u
        ≡ adding u (values_of_signals configs origin frm signals)
  unfolding map_signals extract_signal
  map_signals-adding context dbc configs origin frm [] u = adding-nil u
  map_signals-adding context dbc configs origin frm (s ∷ signals) u =
      map_signals-adding context dbc configs origin frm signals
        (map_found e floats val (find_mapping (add_mappings configs []) origin s.name) u)
      ∙ ap
          (λ (found : Option (CanBusMappingConfig w)).
            adding (map_found e floats val found u) later)
          (find-configs configs origin s.name)
      ∙ ap (λ (v : Update w). adding v later)
          (map_found-adding val (last_for origin s.name configs) u)
      ∙ ap (λ (values : List (Value w)). record u { values = values })
          (append_assoc u.values here later)
    where
      val : Signal w
      val = extract_signal floats s origin frm.bytes

      here : List (Value w)
      here = value_of_config val (last_for origin s.name configs)

      later : List (Value w)
      later = values_of_signals configs origin frm signals

  map_message-values :
      (context : String) (dbc : ℕ → Option (MessageDef w)) (configs : List (CanBusMappingConfig w))
      (frm : CanFrame) (message : Option (MessageDef w)) (u : Update w)
      → map_message e floats (new_can_bus_mapper context dbc configs) frm message u
        ≡ adding u (signal_values configs frm message)
  map_message-values context dbc configs frm none u = adding-nil u
  map_message-values context dbc configs frm (some message) u =
      map_signals-adding context dbc configs message.name frm message.signals u

  abbrev pub can_delta : CanBusMapper w → Raw → List (Value w) → Mapped w
  can_delta m r values = record {
    context = m.context;
    origin = m.context;
    updates =
        record { source = can_source e floats m r; timestamp = r.timestamp; values = values } ∷ [];
  }

  -- A message whose value is a frame from the connector, with a 32-bit identifier and eight bytes of
  -- data, never makes a new CAN mapper panic or fail, whatever stands behind the value in memory: the
  -- delta has one update, with the time and the identifier of the message, and a value for each signal
  -- of the frame's message, in their order, that has a mapping whose expression gives an output: the
  -- output of the last mapping for the message and the signal.
  pub map_can-frame_to_bytes :
      (context : String) (dbc : ℕ → Option (MessageDef w)) (configs : List (CanBusMappingConfig w))
      (r : Raw) (frm : CanFrame) (spare : List ℕ)
      → IsFrame frm
      → r.value ≡ frame_to_bytes frm
      → map_can e floats (new_can_bus_mapper context dbc configs) spare r
        ≡ ok (
            can_delta
              (new_can_bus_mapper context dbc configs)
              r
              (signal_values configs frm (dbc frm.id)))
  unfolding map_can map_can_frame add_update
  map_can-frame_to_bytes context dbc configs r frm spare h sent =
      ap (λ (sent : List ℕ). map_can e floats m spare (record r { value = sent })) sent
      ∙ ap go (create_frame-frame_to_bytes frm spare h)
      ∙ ap (λ (u : Update w). ok (record { context = context; origin = context; updates = u ∷ [] }))
          (map_message-values context dbc configs frm (dbc frm.id)
            (record { source = can_source e floats m r; timestamp = r.timestamp; values = [] }))
    where
      m : CanBusMapper w
      m = new_can_bus_mapper context dbc configs

      go : Outcome MapError CanFrame → Outcome MapError (Mapped w)
      go made = elim made [
        | ok frame ↦ ok (map_can_frame e floats m r frame)
        | err x ↦ err x
        | panic ↦ panic
      ]
