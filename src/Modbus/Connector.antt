-- ===== src/Modbus/Connector.antt =====
-- connector/modbus.go, `Publish` and `receive`: each call of `receive` polls every register group in a
-- goroutine of its own, and returns on the first error of a poll, or when all polls have ended; then it
-- is called again. The other goroutines of the old call go on.
use gosk.Prelude.{
  ℕ, zero, suc, ◌-◌, Bool, true, false, ◌==◌, ◌||◌, leb, List, [], ◌∷◌, ◌++◌, map, length,
  replicate, get_elem?, if◌then◌else◌, Option, none, some, Outcome, ok, err, panic, ◌>>=◌,
}
use gosk.Modbus.Codec.{ModbusHeader}
use gosk.Modbus.Client.{Device, ReadError, read_frame}
use gosk.Modbus.Poll.{poll_capacity, fill}

-- A goroutine that polls a register group for a call of `receive`, with the number of its buffer.
pub record Poll : Type 0 where
  pub call : ℕ
  pub header : ModbusHeader
  pub array : ℕ

-- What is sent on the stream: the first bytes of a buffer, which later reads of the poll overwrite.
pub record Slice : Type 0 where
  pub array : ℕ
  pub length : ℕ

-- `closed` holds the calls whose channel `errors` is closed, `calls` counts the calls so far.
pub record Connector (S : Type 0) : Type 0 where
  pub device : S
  pub running : List Poll
  pub buffers : List (List ℕ)
  pub closed : List ℕ
  pub calls : ℕ
  pub stream : List Slice

-- A poll, by its place, reads, or the channel `done` is looked at.
pub data Round : Type 0 where
  tick : ℕ → Round
  done : Round

abbrev pub remove_at {ℓ} : {A : Type ℓ} → ℕ → List A → List A
remove_at i [] = []
remove_at zero (x ∷ xs) = xs
remove_at (suc i) (x ∷ xs) = x ∷ remove_at i xs

abbrev pub is_closed : ℕ → List ℕ → Bool
is_closed call [] = false
is_closed call (c ∷ closed) = c == call || is_closed call closed

-- `ExtractModbusHeader` of a register group is its header. The buffers are numbered from `array` on.
abbrev pub start_polls : ℕ → ℕ → List ModbusHeader → List Poll
start_polls call array [] = []
start_polls call array (header ∷ groups) =
    record { call = call; header = header; array = array } ∷ start_polls call (suc array) groups

abbrev pub new_buffers : List ModbusHeader → List (List ℕ)
new_buffers = map (λ header. replicate (poll_capacity header) 0)

unfoldable pub fill_at : ℕ → List ℕ → List (List ℕ) → List (List ℕ)
unfolding fill
fill_at k bytes [] = []
fill_at zero bytes (b ∷ buffers) = fill b bytes ∷ buffers
fill_at (suc k) bytes (b ∷ buffers) = b ∷ fill_at k bytes buffers

-- Whether the wait group of a call has a poll to wait for.
abbrev pub has_poll : ℕ → List Poll → Bool
has_poll call [] = false
has_poll call (p ∷ polls) = p.call == call || has_poll call polls

abbrev pub Ran : Type 0 → Type 0
Ran = Outcome (Unit {0})

module _ (dev : Device) (groups : List ModbusHeader) where
  open dev use {State, Failure}

  -- A new call of `receive`.
  abbrev pub receive : Connector State → Connector State
  receive c = record c {
    running = c.running ++ start_polls c.calls (length c.buffers) groups;
    buffers = c.buffers ++ new_buffers groups;
    calls = suc c.calls;
  }

  unfoldable pub publish : State → Connector State
  publish s =
      receive
        (record { device = s; running = []; buffers = []; closed = []; calls = 0; stream = [] })

  -- `errors <- err`: the first error of a call ends `receive`, which closes the channel; a send on a
  -- closed channel panics, also for a goroutine that waits in it.
  unfoldable pub report : ℕ → Poll → Connector State → Ran (Connector State)
  report i p c = elim (is_closed p.call c.closed) [
    | true ↦ panic
    | false ↦
        ok (receive (record c { running = remove_at i c.running; closed = p.call ∷ c.closed }))
  ]

  -- A round of the poll at place `i`, on what `Read` answers: `bytes[:n]` panics if there are more bytes
  -- than its buffer has.
  abbrev pub on_answer :
      ℕ → Poll → Outcome (ReadError Failure) (List ℕ) → Connector State → Ran (Connector State)
  on_answer i p (ok bytes) c =
      if leb (length bytes) (poll_capacity p.header)
      then ok (record c {
        buffers = fill_at p.array bytes c.buffers;
        stream = c.stream ++ record { array = p.array; length = length bytes } ∷ [];
      })
      else panic
  on_answer i p (err e) c = report i p c
  on_answer i p panic c = panic

  abbrev pub poll_at : ℕ → Option Poll → Connector State → Ran (Connector State)
  poll_at i none c = ok c
  poll_at i (some p) c =
      let (answer, device) = read_frame dev p.header c.device in
      on_answer i p answer (record c { device = device })

  -- The channel `done` of the last call is closed when none of its polls is left: `receive` returns,
  -- and is called again. That is so only if there are no register groups.
  abbrev pub on_done : Connector State → Connector State
  on_done c = if has_poll (c.calls - 1) c.running then c else receive c

  abbrev pub run_round : Round → Connector State → Ran (Connector State)
  run_round (tick i) c = poll_at i (get_elem? c.running i) c
  run_round done c = ok (on_done c)

  -- The rounds in their order.
  unfoldable pub run_polls : List Round → Connector State → Ran (Connector State)
  unfolding report fill_at poll_capacity
  run_polls [] c = ok c
  run_polls (r ∷ rounds) c = do c' ← run_round r c; run_polls rounds c'
