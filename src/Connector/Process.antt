-- ===== src/Connector/Process.antt =====
-- connector/main.go, `process`: what was read from a connection goes to the message bus, as raw
-- messages.
use gosk.Prelude.{ℕ, suc, Bool, true, false, String, List, [], ◌∷◌, ◌++◌, Option, none, some}
use gosk.Message.Delta.{Time, Uuid}
use gosk.Message.RawMessage.{Raw}
use gosk.Message.RawJson.{RawCodec, marshal_raw}

-- A value of the stream, with what `uuid.New` and `time.Now` give when it is taken.
pub record Arrival : Type 0 where
  pub value : List ℕ
  pub uuid : Uuid
  pub now : Time

-- The calls of `Send` so far, and what the message bus accepted.
pub record Publisher (Wire : Type 0) : Type 0 where
  pub sends : ℕ
  pub sent : List Wire

abbrev pub new_publisher : (Wire : Type 0) → Publisher Wire
new_publisher Wire = record { sends = 0; sent = [] }

abbrev pub new_raw : Arrival → Raw
new_raw a = record { connector = ""; timestamp = a.now; type = ""; uuid = a.uuid; value = [] }

-- `message.NewRaw().WithConnector(connector).WithValue(value).WithType(protocol)`
unfoldable pub raw_of : String → String → Arrival → Raw
raw_of connector protocol a = record (new_raw a) {
  connector = connector;
  value = a.value;
  type = protocol;
}

module _ (codec : RawCodec) (connector protocol : String) (is_refused : ℕ → Bool) where
  abbrev pub after_send : Bool → codec.Wire → Publisher codec.Wire → Publisher codec.Wire
  after_send true bytes p = record p { sends = suc p.sends }
  after_send false bytes p = record { sends = suc p.sends; sent = p.sent ++ bytes ∷ [] }

  abbrev pub send_raw : Option codec.Wire → Publisher codec.Wire → Publisher codec.Wire
  send_raw none p = p
  send_raw (some bytes) p = after_send (is_refused p.sends) bytes p

  unfoldable pub process : List Arrival → Publisher codec.Wire → Publisher codec.Wire
  unfolding raw_of
  process [] p = p
  process (a ∷ stream) p =
      process stream (send_raw (marshal_raw codec (raw_of connector protocol a)) p)
