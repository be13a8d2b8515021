-- ===== src/Connector/LineWriter.antt =====
-- connector/line.go, `Subscribe`: the raw messages of the bus are written to the connection, each as
-- a line.
use gosk.Prelude.{ℕ, List, [], ◌∷◌, ◌++◌, Option, none, some}
use gosk.Message.RawMessage.{Raw}
use gosk.Message.RawJson.{RawCodec, RawError, zero_raw, unmarshal_raw}
use gosk.Connector.Lines.{line_feed, carriage_return}

-- The one raw message that every round decodes into, and the arguments of the calls of `Write`,
-- whose results are not looked at.
pub record Subscriber : Type 0 where
  pub raw : Raw
  pub written : List (List ℕ)

abbrev pub new_subscriber : Subscriber
new_subscriber = record { raw = zero_raw; written = [] }

-- `append(raw.Value, '\r', '\n')`
abbrev pub framed : List ℕ → List ℕ
framed value = value ++ carriage_return ∷ line_feed ∷ []

abbrev pub after_decoding : Option RawError × Raw → Subscriber → Subscriber
after_decoding (some e, raw) s = record s { raw = raw }
after_decoding (none, raw) s = record { raw = raw; written = s.written ++ framed raw.value ∷ [] }

module _ (codec : RawCodec) where
  -- What `Recv` gives is `none` for an error.
  unfoldable pub subscribe : List (Option codec.Wire) → Subscriber → Subscriber
  subscribe [] s = s
  subscribe (none ∷ received) s = subscribe received s
  subscribe (some bytes ∷ received) s =
      subscribe received (after_decoding (unmarshal_raw codec bytes s.raw) s)
