-- ===== src/Modbus/Subscriber.antt =====
-- connector/modbus.go, `Subscribe`: the raw messages of the bus are written to the device.
use gosk.Prelude.{ℕ, List, [], ◌∷◌, Option, none, some, Outcome, ok, err, panic, ◌>>=◌}
use gosk.Message.RawMessage.{Raw}
use gosk.Message.RawJson.{RawCodec, RawError, unmarshal_raw}
use gosk.Modbus.Client.{Device, WriteError, write}

abbrev pub Ran : Type 0 → Type 0
Ran = Outcome (Unit {0})

module _ (codec : RawCodec) (dev : Device) where
  open dev use {State}

  -- `client.Write(raw.Value)`, whose results are not looked at. A panic ends the process.
  abbrev pub on_write : Outcome WriteError ℕ × State → Ran State
  on_write (ok n, s) = ok s
  on_write (err e, s) = ok s
  on_write (panic, s) = panic

  abbrev pub after_unmarshal : Option RawError × Raw → State → Ran State
  after_unmarshal (some e, raw) s = ok s
  after_unmarshal (none, raw) s = on_write (write dev raw.value s)

  -- What `Recv` gives is `none` for an error. The one raw message is decoded into again and again.
  unfoldable pub subscribe : List (Option codec.Wire) → Raw → State → Ran State
  subscribe [] raw s = ok s
  subscribe (none ∷ received) raw s = subscribe received raw s
  subscribe (some bytes ∷ received) raw s =
      let decoded = unmarshal_raw codec bytes raw in
      do s' ← after_unmarshal decoded s; subscribe received decoded.1 s'
