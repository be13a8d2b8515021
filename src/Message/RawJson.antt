-- ===== src/Message/RawJson.antt =====
-- message/raw.go, `MarshalJSON` and `UnmarshalJSON`: a raw message as a map of five texts. The
-- packages encoding/json, time, uuid and encoding/base64 are the parameter `RawCodec`.
use gosk.Prelude.{ℕ, Bool, true, false, String, List, [], ◌∷◌, Option, none, some}
use gosk.Prelude.Assoc.{Assoc, lookup, insert}
use gosk.Message.Delta.{Time, zero_time, Uuid}
use gosk.Message.RawMessage.{Raw}

-- `Wire` is what stands on the bus, the bytes of a JSON text. `none` is an error. `format` writes the time in UTC, as RFC 3339 with nanoseconds. The readers of
-- a field give a value also with an error; the test is whether there is none.
pub record RawCodec : Type 1 where
  pub Wire : Type 0
  pub encode : Assoc String → Option Wire
  pub decode : Wire → Option (Assoc String)
  pub format : Time → String
  pub parse : String → Time × Bool
  pub uuid_string : Uuid → String
  pub uuid_parse : String → Uuid × Bool
  pub encode_to_string : List ℕ → String
  pub decode_string : String → List ℕ × Bool

-- `raw := &message.Raw{}`
abbrev pub zero_raw : Raw
zero_raw = record { connector = ""; timestamp = zero_time; type = ""; uuid = 0; value = [] }

abbrev pub keys : List String
keys = "connector" ∷ "timestamp" ∷ "type" ∷ "uuid" ∷ "value" ∷ []

-- Whether all keys are there.
unfoldable pub missing_key : List String → Assoc String → Option String
missing_key [] j = none
missing_key (key ∷ rest) j = elim (lookup key j) [ none ↦ some key | some t ↦ missing_key rest j ]

-- `j[key]`
abbrev pub text_at : Option String → String
text_at none = ""
text_at (some t) = t

pub data RawError : Type 0 where
  not_a_map not_a_time not_a_uuid not_base64 : RawError
  missing : String → RawError

module _ (codec : RawCodec) where
  unfoldable pub raw_map : Raw → Assoc String
  raw_map r = insert "value" (codec.encode_to_string r.value) (
      insert "uuid" (codec.uuid_string r.uuid) (
        insert "type" r.type
          (insert "timestamp" (codec.format r.timestamp) (insert "connector" r.connector []))))

  unfoldable pub marshal_raw : Raw → Option codec.Wire
  unfolding raw_map
  marshal_raw r = codec.encode (raw_map r)

  -- Each assignment is made, also where its error ends the method.
  abbrev pub set_value : List ℕ × Bool → Raw → Option RawError × Raw
  set_value (bytes, true) r = (none, record r { value = bytes })
  set_value (bytes, false) r = (some not_base64, record r { value = bytes })

  abbrev pub set_uuid : Assoc String → Uuid × Bool → Raw → Option RawError × Raw
  set_uuid j (uuid, true) r =
      set_value (codec.decode_string (text_at (lookup "value" j))) (record r { uuid = uuid })
  set_uuid j (uuid, false) r = (some not_a_uuid, record r { uuid = uuid })

  abbrev pub set_timestamp : Assoc String → Time × Bool → Raw → Option RawError × Raw
  set_timestamp j (time, true) r =
      set_uuid j (codec.uuid_parse (text_at (lookup "uuid" j)))
        (record r { timestamp = time; type = text_at (lookup "type" j) })
  set_timestamp j (time, false) r = (some not_a_time, record r { timestamp = time })

  unfoldable pub set_fields : Assoc String → Raw → Option RawError × Raw
  set_fields j r =
      set_timestamp j (codec.parse (text_at (lookup "timestamp" j)))
        (record r { connector = text_at (lookup "connector" j) })

  unfoldable pub unmarshal_raw : codec.Wire → Raw → Option RawError × Raw
  unfolding missing_key set_fields
  unmarshal_raw bytes r = elim (codec.decode bytes) [
    | none ↦ (some not_a_map, r)
    | some j ↦ elim (missing_key keys j) [
      | some key ↦ (some (missing key), r)
      | none ↦ set_fields j r
    ]
  ]
