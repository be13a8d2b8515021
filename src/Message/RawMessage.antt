-- ===== src/Message/RawMessage.antt =====
-- message/raw.go: what a connector received, with its sender and time.
use gosk.Prelude.{ℕ, String, List}
use gosk.Message.Delta.{Time, Uuid}

pub record Raw : Type 0 where
  pub connector : String
  pub timestamp : Time
  pub type : String
  pub uuid : Uuid
  pub value : List ℕ
