-- ===== src/Mapper/Modbus.antt =====
-- mapper/modbus.go, `DoMap`: a frame from protocol/modbus.go becomes a delta with one value for each
-- register mapping that fits it.
use gosk.Prelude.{
  ℕ, ◌+◌, ◌%◌, Bool, true, false, ◌==◌, ◌&&◌, not, ltb, String, List, [], ◌∷◌, Option, none, some,
  Outcome, ok, err, panic,
}
use gosk.Message.Values.{Foreign, GoValue}
use gosk.Message.Delta.{Source, Update, Mapped, add_value, add_update, get_value_by_path}
use gosk.Message.RawMessage.{Raw}
use gosk.Modbus.Codec.{ModbusHeader, uint16, register_pairs}
use gosk.Mapper.Process.{MapError, no_useful_data, cannot_be_mapped}
use gosk.Mapper.Expressions.{Environment, MappingConfig, Engine, run_expr}
use gosk.Mapper.Registers.{on_frame}

pub record ModbusMappingsConfig (w : Foreign) : Type 0 where
  pub mapping : MappingConfig w
  pub header : ModbusHeader

pub record ModbusMapper (w : Foreign) : Type 0 where
  pub context : String
  pub mappings : List (ModbusMappingsConfig w)
  pub env : Environment w

-- The two tests that skip a mapping. The sums are computed in `uint16`.
unfoldable pub is_mapped_by : ModbusHeader → ModbusHeader → Bool
is_mapped_by wanted got =
    (wanted.slave == got.slave && wanted.function_code == got.function_code)
    && (not (ltb wanted.address got.address)
        && not (
            ltb ((got.address + got.number_of_coils_or_registers) % 65536)
              ((wanted.address + wanted.number_of_coils_or_registers) % 65536)))

-- The header and the registers, unless there is nothing behind the header.
unfoldable pub read_raw : List ℕ → Option (ModbusHeader × List ℕ)
read_raw (b0 ∷ b1 ∷ b2 ∷ b3 ∷ b4 ∷ b5 ∷ b6 ∷ b7 ∷ bytes) = some (
  record {
    slave = b0;
    function_code = uint16 b1 b2;
    address = uint16 b3 b4;
    number_of_coils_or_registers = uint16 b5 b6;
  },
  register_pairs (b7 ∷ bytes),
)
read_raw bytes = none

module _ {w : Foreign} (e : Engine w) where
  -- The output of a mapping. What `WithValue` writes goes to a copy, so a path that is there already
  -- keeps its value.
  unfoldable pub put_output : String → GoValue w → Update w → Update w
  put_output path output u = elim (get_value_by_path u path) [
    | some v ↦ u
    | none ↦ add_value u (record { path = path; value = output })
  ]

  -- Nothing is put for a mapping without an output, in the other mappers.
  abbrev pub put_found : String → Option (GoValue w) → Update w → Update w
  put_found path none u = u
  put_found path (some output) u = put_output path output u

  unfoldable pub map_all :
      Environment w → ModbusHeader → List (ModbusMappingsConfig w) → Update w → Update w
  map_all env got [] u = u
  map_all env got (c ∷ rest) u = elim (is_mapped_by c.header got) [
    | false ↦ map_all env got rest u
    | true ↦ elim (run_expr e env c.mapping) [
      | none ↦ map_all env got rest u
      | some output ↦ map_all env got rest (put_output c.mapping.path output u)
    ]
  ]

  abbrev pub modbus_source : Raw → Source
  modbus_source r = record {
    label = r.connector;
    type = "modbus";
    uuid = r.uuid;
    transfer_uuid = 0;
  }

  abbrev pub fresh_update : Raw → Update w
  fresh_update r = record { source = modbus_source r; timestamp = r.timestamp; values = [] }

  -- The end of `DoMap`, on the update that the mappings made.
  abbrev pub answer : ModbusMapper w → Raw → Update w → Outcome MapError (Mapped w)
  answer m r u = elim u.values [
    | [] ↦ err (cannot_be_mapped r.value)
    | v ∷ values ↦
        ok (add_update (record { context = m.context; origin = m.context; updates = [] }) u)
  ]

  -- `DoMap` once the environment is up to date.
  abbrev pub finish :
      ModbusMapper w
      → Raw
      → ModbusHeader
      → Outcome MapError (Environment w)
      → Outcome MapError (Mapped w) × ModbusMapper w
  finish m r got (ok env) =
      (answer m r (map_all env got m.mappings (fresh_update r)), record m { env = env })
  finish m r got (err x) = (err x, m)
  finish m r got panic = (panic, m)

  -- `DoMap` behind the test of the length and the reading of the header and the registers.
  unfoldable pub map_frame :
      ModbusMapper w → Raw → ModbusHeader → List ℕ → Outcome MapError (Mapped w) × ModbusMapper w
  map_frame m r got values =
      finish m r got (on_frame r.timestamp got.function_code got.address values m.env)

  unfoldable pub map_raw : ModbusMapper w → Raw → Outcome MapError (Mapped w) × ModbusMapper w
  map_raw m r = elim (read_raw r.value) [
    | none ↦ (err (no_useful_data r.value), m)
    | some (got, values) ↦ map_frame m r got values
  ]
