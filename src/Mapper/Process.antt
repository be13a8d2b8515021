-- ===== src/Mapper/Process.antt =====
-- mapper/main.go, `process` and `processMapped`: the loops that hand each message to a mapper and sends what comes
-- back. A message that cannot be received or decoded is skipped, so only decoded ones stand here.
use gosk.Prelude.{ℕ, List, [], ◌∷◌, Option, none, some, Outcome, ok, err, panic}
use gosk.Message.Values.{Foreign}
use gosk.Message.Delta.{Update, Mapped, add_update}

-- The errors that the mappers return.
pub data MapError : Type 0 where
  no_useful_data : List ℕ → MapError
  cannot_be_mapped : List ℕ → MapError
  expression_failed : MapError
  not_a_boolean : MapError

module _ {w : Foreign} where
  -- `for _, u := range updates { result.AddUpdate(&u) }`
  abbrev pub add_updates : Mapped w → List (Update w) → Mapped w
  add_updates result [] = result
  add_updates result (u ∷ updates) = add_updates (add_update result u) updates

  -- A delta without updates is not sent.
  abbrev pub send_mapped : Mapped w → List (Mapped w) → List (Mapped w)
  send_mapped m sent = elim m.updates [ [] ↦ sent | u ∷ us ↦ m ∷ sent ]

  -- An error is logged. A panic ends the process.
  unfoldable pub process_mapped :
      {S : Type 0}
      → (S → Mapped w → Outcome MapError (Mapped w) × S)
      → S
      → List (Mapped w)
      → List (Mapped w) × S
  process_mapped do_map s [] = ([], s)
  process_mapped do_map s (delta ∷ rest) =
      let (out, s') = do_map s delta in
      elim out [
        | ok m ↦ let (sent, end) = process_mapped do_map s' rest in (send_mapped m sent, end)
        | err e ↦ process_mapped do_map s' rest
        | panic ↦ ([], s')
      ]

  -- What a round of `process` adds to what the later rounds send. A panic ends the process, which
  -- leaves no state.
  abbrev pub sent_before :
      {S : Type 0}
      → Outcome MapError (Mapped w)
      → List (Mapped w) × Option S
      → List (Mapped w) × Option S
  sent_before (ok m) (sent, end) = (m ∷ sent, end)
  sent_before (err e) later = later
  sent_before panic later = ([], none)

  unfoldable pub process :
      {S R : Type 0}
      → (S → R → Outcome MapError (Mapped w) × S)
      → S
      → List R
      → List (Mapped w) × Option S
  process do_map s [] = ([], some s)
  process do_map s (raw ∷ rest) =
      let (out, s') = do_map s raw in sent_before out (process do_map s' rest)
