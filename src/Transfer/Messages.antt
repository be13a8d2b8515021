-- ===== src/Transfer/Messages.antt =====
-- transfer/main.go: the topics and the two messages of the protocol.
use Prim.Native.Char.{code}
use gosk.Prelude.{ℕ, ◌*◌, ◌==◌, ◌≡◌, String, List, Option, none, some, if◌then◌else◌}
use gosk.Prelude.Int.{ℤ}
use gosk.Message.Delta.{Time, Uuid}

abbrev pub count_cmd : String
count_cmd = "count"

abbrev pub data_cmd : String
data_cmd = "data"

abbrev pub append : String → String → String
append String.[] t = t
append (String.◌∷◌ a s) t = String.◌∷◌ a (append s t)

abbrev pub without : String → String → Option String
without String.[] t = some t
without (String.◌∷◌ a s) String.[] = none
without (String.◌∷◌ a s) (String.◌∷◌ b t) =
    let rest = without s t in if code a == code b then rest else none

abbrev pub or_self : String → Option String → String
or_self t none = t
or_self t (some rest) = rest

-- `strings.TrimPrefix(t, prefix)`
unfoldable pub trim_prefix : String → String → String
trim_prefix t prefix = or_self t (without prefix t)

-- `fmt.Sprintf(requestTopic, origin)`
unfoldable pub request_topic : String → String
request_topic origin = append "request/" origin

unfoldable pub respond_topic : String → String
respond_topic origin = append "respond/" origin

-- Durations are in nanoseconds.
abbrev pub period_duration : ℕ
period_duration = 5 * 60000000000

abbrev pub count_request_cool_down : ℕ
count_request_cool_down = 12 * period_duration

pub record RequestMessage : Type 0 where
  pub command : String
  pub uuid : Uuid
  pub period_start : Time
  pub counts_per_uuid : List (Uuid × ℤ)

pub record ResponseMessage : Type 0 where
  pub command : String
  pub uuid : Uuid
  pub period_start : Time
  pub data_points : ℤ

-- What `LogTransferRequest` is given.
pub data Logged : Type 0 where
  request : RequestMessage → Logged
  response : ResponseMessage → Logged

abbrev pub Bytes : Type 0
Bytes = List ℕ

-- `json.Marshal` and `json.Unmarshal` at one type; `none` is an error.
pub record Json (M : Type 0) : Type 0 where
  pub marshal : M → Option Bytes
  pub unmarshal : Bytes → Option M

-- What `Publish` hands to the broker: always with quality of service 0, and retained.
pub record Publication : Type 0 where
  pub topic : String
  pub payload : Bytes

-- What encoding/json documents of a message: what one side encodes, the other reads back.
abbrev pub IsCarried : {M : Type 0} → Json M → Json M → M → Type 0
IsCarried from to message =
    (bytes : Bytes) × (from.marshal message ≡ some bytes) × (to.unmarshal bytes ≡ some message)
