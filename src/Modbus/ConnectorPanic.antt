-- ===== src/Modbus/ConnectorPanic.antt =====
-- What a second error of the polls of one call does in connector/modbus.go.
use gosk.Prelude.{
  get_elem?, ok_inj, bind_ok, panic-ne-ok, if◌then◌else◌, ℕ, ◌-◌, ◌≡◌, refl, sym, ap, ◌∙◌, leb,
  Bool, true, false, Bool-cases, inl, inr, List, [], ◌∷◌, ◌++◌, length, Option, none, some, Outcome,
  ok, err, panic, ◌>>=◌, arith,
}
use mathlib.Core.Path.{subst}
use gosk.Modbus.Codec.{ModbusHeader}
use gosk.Modbus.Client.{Device, ReadError, read_frame}
use gosk.Modbus.Poll.{poll_capacity}
use gosk.Modbus.Connector.{
  Poll, Connector, Round, tick, done, remove_at, is_closed, has_poll, receive, publish, report,
  on_answer, on_done, poll_at, run_round, run_polls, fill_at,
}

abbrev pub is_err : {E A : Type 0} → Outcome E A → Bool
is_err (ok a) = false
is_err (err x) = true
is_err panic = false

error_of : {E A : Type 0} (o : Outcome E A) → is_err o ≡ true → (x : E) × (o ≡ err x)
error_of (ok a) h = cc
error_of (err x) h = (x, refl)
error_of panic h = cc

module _ (dev : Device) (groups : List ModbusHeader) where
  -- There is a poll at the place, of the call, and the device answers its next read with an error.
  abbrev pub Fails : Connector dev.State → ℕ → ℕ → Type 0
  Fails c i call =
      (p : Poll) × (get_elem? c.running i ≡ some p)
      × (p.call ≡ call)
      × (is_err (read_frame dev p.header c.device).0 ≡ true)

  abbrev after : Poll → Connector dev.State → Connector dev.State
  after p c = record c { device = (read_frame dev p.header c.device).1 }

  abbrev ended : ℕ → Poll → Connector dev.State → Connector dev.State
  ended i p c =
      receive dev groups (record c { running = remove_at i c.running; closed = p.call ∷ c.closed })

  report_cases :
      (i : ℕ) (p : Poll) (c : Connector dev.State) (b : Bool)
      → is_closed p.call c.closed ≡ b
      → report dev groups i p c ≡ (if b then panic else ok (ended i p c))
  unfolding report
  report_cases i p c b e = ground (arith, e)

  poll_at-failed :
      (i : ℕ) (p : Poll) (c : Connector dev.State)
      → get_elem? c.running i ≡ some p
      → is_err (read_frame dev p.header c.device).0 ≡ true
      → poll_at dev groups i (get_elem? c.running i) c ≡ report dev groups i p (after p c)
  poll_at-failed i p c here failed =
      ap (λ (found : Option Poll). poll_at dev groups i found c) here
      ∙ ap
          (λ (answer : Outcome (ReadError dev.Failure) (List ℕ)).
            on_answer dev groups i p answer (after p c))
          (error_of (read_frame dev p.header c.device).0 failed).1

  -- A closed channel stays closed.
  is_closed-report :
      (i : ℕ) (p : Poll) (c c' : Connector dev.State) (call : ℕ)
      → is_closed call c.closed ≡ true
      → report dev groups i p c ≡ ok c'
      → is_closed call c'.closed ≡ true
  is_closed-report i p c c' call h e = elim (Bool-cases (is_closed p.call c.closed)) [
    | inl closed ↦ absurd (panic-ne-ok (sym (report_cases i p c true closed) ∙ e))
    | inr fresh ↦
        subst (λ (s : Connector dev.State). is_closed call s.closed ≡ true)
          (ok_inj (sym (report_cases i p c false fresh) ∙ e)) (ground (arith, h))
  ]

  is_closed-on_answer :
      (i : ℕ) (p : Poll) (answer : Outcome (ReadError dev.Failure) (List ℕ))
      (c c' : Connector dev.State) (call : ℕ)
      → is_closed call c.closed ≡ true
      → on_answer dev groups i p answer c ≡ ok c'
      → is_closed call c'.closed ≡ true
  is_closed-on_answer i p (ok bytes) c c' call h e =
      elim (Bool-cases (leb (length bytes) (poll_capacity p.header))) [
        | inl small ↦
            subst (λ (s : Connector dev.State). is_closed call s.closed ≡ true)
              (ok_inj (sym (if_is small) ∙ e)) h
        | inr large ↦ absurd (panic-ne-ok (sym (if_is large) ∙ e))
      ]
    where
      sent : Connector dev.State
      sent = record c {
        buffers = fill_at p.array bytes c.buffers;
        stream = c.stream ++ record { array = p.array; length = length bytes } ∷ [];
      }

      if_is :
          {b : Bool}
          → leb (length bytes) (poll_capacity p.header) ≡ b
          → on_answer dev groups i p (ok bytes) c ≡ (if b then ok sent else panic)
      if_is e = rw e refl
  is_closed-on_answer i p (err x) c c' call h e = is_closed-report i p c c' call h e
  is_closed-on_answer i p panic c c' call h e = absurd (panic-ne-ok e)

  is_closed-poll_at :
      (i : ℕ) (found : Option Poll) (c c' : Connector dev.State) (call : ℕ)
      → is_closed call c.closed ≡ true
      → poll_at dev groups i found c ≡ ok c'
      → is_closed call c'.closed ≡ true
  is_closed-poll_at i none c c' call h e =
      subst (λ (s : Connector dev.State). is_closed call s.closed ≡ true) (ok_inj e) h
  is_closed-poll_at i (some p) c c' call h e =
      is_closed-on_answer i p (read_frame dev p.header c.device).0 (after p c) c' call h e

  is_closed-on_done :
      (c : Connector dev.State) (call : ℕ)
      → is_closed call c.closed ≡ true
      → is_closed call (on_done dev groups c).closed ≡ true
  is_closed-on_done c call h = elim (Bool-cases (has_poll (c.calls - 1) c.running)) [
    | inl busy ↦ rw busy h
    | inr idle ↦ rw idle h
  ]

  is_closed-run_polls :
      (rounds : List Round) (c c' : Connector dev.State) (call : ℕ)
      → is_closed call c.closed ≡ true
      → run_polls dev groups rounds c ≡ ok c'
      → is_closed call c'.closed ≡ true
  unfolding run_polls
  is_closed-run_polls [] c c' call h e =
      subst (λ (s : Connector dev.State). is_closed call s.closed ≡ true) (ok_inj e) h
  is_closed-run_polls (tick i ∷ rounds) c c' call h e =
      let (next, here, rest) =
        bind_ok (poll_at dev groups i (get_elem? c.running i) c) (run_polls dev groups rounds) e in
      is_closed-run_polls rounds next c' call
        (is_closed-poll_at i (get_elem? c.running i) c next call h here) rest
  is_closed-run_polls (done ∷ rounds) c c' call h e =
      is_closed-run_polls rounds (on_done dev groups c) c' call (is_closed-on_done c call h) e

  run_polls-append :
      (rounds more : List Round) (c c' : Connector dev.State)
      → run_polls dev groups rounds c ≡ ok c'
      → run_polls dev groups (rounds ++ more) c ≡ run_polls dev groups more c'
  unfolding run_polls
  run_polls-append [] more c c' e = ap (run_polls dev groups more) (ok_inj e)
  run_polls-append (r ∷ rounds) more c c' e =
      let (next, here, rest) = bind_ok (run_round dev groups r c) (run_polls dev groups rounds) e in
      ap
        (λ (o : Outcome (Unit {0}) (Connector dev.State)).
          o >>= run_polls dev groups (rounds ++ more))
        here
      ∙ run_polls-append rounds more next c' rest

  -- The first error closes the channel of its call.
  is_closed-failed :
      (i call : ℕ) (c c' : Connector dev.State)
      → Fails c i call
      → run_round dev groups (tick i) c ≡ ok c'
      → is_closed call c'.closed ≡ true
  is_closed-failed i call c c' (p, here, of_call, failed) e =
      let reported : report dev groups i p (after p c) ≡ ok c' =
        sym (poll_at-failed i p c here failed) ∙ e in
      elim (Bool-cases (is_closed p.call c.closed)) [
        | inl closed ↦
            absurd (panic-ne-ok (sym (report_cases i p (after p c) true closed) ∙ reported))
        | inr fresh ↦
            subst (λ (s : Connector dev.State). is_closed call s.closed ≡ true)
              (ok_inj (sym (report_cases i p (after p c) false fresh) ∙ reported))
              (ground (arith, of_call))
      ]

  run_round-closed :
      (j call : ℕ) (c : Connector dev.State)
      → Fails c j call
      → is_closed call c.closed ≡ true
      → run_round dev groups (tick j) c ≡ panic
  run_round-closed j call c (q, there, of_call, failed) closed =
      poll_at-failed j q c there failed
      ∙ report_cases j q (after q c) true (ap (λ n. is_closed n c.closed) of_call ∙ closed)

  -- Whatever rounds came before, and whatever rounds and calls of `receive` come between: if a read of
  -- a poll of a call fails, and later a read of another poll of the same call, the connector panics,
  -- whatever would come after.
  pub second_error_panics :
      (s : dev.State) (before between later : List Round) (c c' : Connector dev.State)
      (i j call : ℕ)
      → run_polls dev groups before (publish dev groups s) ≡ ok c
      → Fails c i call
      → run_polls dev groups (tick i ∷ between) c ≡ ok c'
      → Fails c' j call
      → run_polls dev groups
          (before ++ ((tick i ∷ between) ++ tick j ∷ later))
          (publish dev groups s)
        ≡ panic
  unfolding run_polls
  second_error_panics s before between later c c' i j call start first middle second =
      let (next, here, rest) =
        bind_ok (run_round dev groups (tick i) c) (run_polls dev groups between) middle in
      let closed =
        is_closed-run_polls between next c' call (is_closed-failed i call c next first here) rest in
      run_polls-append before ((tick i ∷ between) ++ tick j ∷ later) (publish dev groups s) c start
      ∙ (run_polls-append (tick i ∷ between) (tick j ∷ later) c c' middle
          ∙ ap (λ (o : Outcome (Unit {0}) (Connector dev.State)). o >>= run_polls dev groups later)
              (run_round-closed j call c' second closed))
