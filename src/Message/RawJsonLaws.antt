-- ===== src/Message/RawJsonLaws.antt =====
-- A raw message of message/raw.go, and what is read back from its JSON form.
use gosk.Prelude.{◌≡◌, refl, true, String, none, some}
use gosk.Prelude.Assoc.{Assoc, lookup, insert}
use gosk.Message.RawMessage.{Raw}
use gosk.Message.RawJson.{
  RawCodec, keys, missing_key, raw_map, marshal_raw, set_fields, unmarshal_raw,
}

-- What the packages document: encoding/json can encode a map of texts, and reads back one with the
-- same entries.
pub record IsRawCodec (codec : RawCodec) : Type 0 where
  pub encodes : (m : Assoc String) → (bytes : codec.Wire) × (codec.encode m ≡ some bytes)
  pub carried :
      (m : Assoc String) (bytes : codec.Wire)
      → codec.encode m ≡ some bytes
      → (m' : Assoc String) × (codec.decode bytes ≡ some m')
        × ((k : String) → lookup k m' ≡ lookup k m)

-- The time has a year of four digits, the identifier has 128 bits, and the value consists of bytes:
-- then the other packages read back what they wrote.
pub record IsEncodable (codec : RawCodec) (r : Raw) : Type 0 where
  pub timestamp : codec.parse (codec.format r.timestamp) ≡ (r.timestamp, true)
  pub uuid : codec.uuid_parse (codec.uuid_string r.uuid) ≡ (r.uuid, true)
  pub value : codec.decode_string (codec.encode_to_string r.value) ≡ (r.value, true)

module _ (codec : RawCodec) where
  set_fields-raw_map :
      (r old : Raw) (j : Assoc String)
      → IsEncodable codec r
      → ((k : String) → lookup k j ≡ lookup k (raw_map codec r))
      → set_fields codec j old ≡ (none, r)
  unfolding set_fields raw_map lookup insert
  set_fields-raw_map r old j enc same =
      rw (same "connector", same "timestamp", enc.timestamp)
        (rw (same "type", same "uuid", enc.uuid) (rw (same "value", enc.value) refl))

  no_missing_key :
      (r : Raw) (j : Assoc String)
      → ((k : String) → lookup k j ≡ lookup k (raw_map codec r))
      → missing_key keys j ≡ none
  unfolding missing_key raw_map lookup insert
  no_missing_key r j same =
      rw (missing_key, same "connector")
        (rw (missing_key, same "timestamp")
          (rw (missing_key, same "type")
            (rw (missing_key, same "uuid") (rw (missing_key, same "value") refl))))

  pub unmarshal_raw-marshal_raw :
      IsRawCodec codec
      → (r old : Raw) (bytes : codec.Wire) → IsEncodable codec r
      → marshal_raw codec r ≡ some bytes
      → unmarshal_raw codec bytes old ≡ (none, r)
  unfolding marshal_raw unmarshal_raw
  unmarshal_raw-marshal_raw is r old bytes enc e =
      let (j, d, same) = is.carried (raw_map codec r) bytes e in
      rw (unmarshal_raw, d, no_missing_key r j same) (set_fields-raw_map r old j enc same)
