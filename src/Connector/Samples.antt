-- ===== src/Connector/Samples.antt =====
-- A codec that knows two values, for the tests of what goes over the message bus.
use gosk.Prelude.{
  ℕ, refl, Bool, true, false, ◌==◌, str_eq, String, List, [], ◌∷◌, some, if◌then◌else◌,
}
use gosk.Prelude.Int.{pos}
use gosk.Prelude.Assoc.{Assoc}
use gosk.Message.RawJson.{RawCodec}
use gosk.Message.RawJsonLaws.{IsRawCodec}
use gosk.Connector.Process.{Arrival}

-- A message is its map, and the texts of the fields are names for what stands in the messages.
abbrev pub codec : List ℕ → List ℕ → RawCodec
codec first_line second_line = record {
  Wire = Assoc String;
  encode = some;
  decode = some;
  format = λ t. "2024-05-01T00:00:00Z";
  parse = λ s. (pos 1_714_521_600_000_000_000, true);
  uuid_string = λ u. if u == 1 then "one" else "two";
  uuid_parse = λ s. if str_eq s "one" then (1, true) else (2, str_eq s "two");
  encode_to_string = λ bytes. if bytes_equal bytes first_line then "JFNERFBU" else "JFdJTVdW";
  decode_string =
      λ s. if str_eq s "JFNERFBU" then (first_line, true) else (second_line, str_eq s "JFdJTVdW");
}
  where
    bytes_equal : List ℕ → List ℕ → Bool
    bytes_equal [] [] = true
    bytes_equal (b ∷ bytes) (c ∷ others) = if b == c then bytes_equal bytes others else false
    bytes_equal _ _ = false

pub codec-IsRawCodec : (first_line second_line : List ℕ) → IsRawCodec (codec first_line second_line)
codec-IsRawCodec first_line second_line = record {
  encodes = λ m. (m, refl);
  carried = λ m bytes e. (bytes, refl, λ k. cc);
}

abbrev pub arrival : List ℕ → ℕ → Arrival
arrival value uuid = record { value = value; uuid = uuid; now = pos 1_714_521_600_000_000_000 }
