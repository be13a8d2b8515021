-- ===== src/Writer/SignalKTests.antt =====
-- The theorems about the SignalK writer at a client that leaves, and a database that fails.
use gosk.Prelude.{refl, false, List, [], ◌∷◌, none}
use gosk.Prelude.Assoc.{insert}
use gosk.Message.Samples.{sample, speed, update, delta_of}
use gosk.Message.Delta.{new_source}
use gosk.Message.Values.{nil}
use gosk.Prelude.Int.{pos}
use gosk.Database.MessageCache.{ByteCache, CacheCodec, BigCache}
use gosk.Writer.SignalK.{
  Sending, Step, loaded, stored, updated, requested, accepted, handed, left, SignalKWriter,
  new_signal_k_writer, signal_k_step, run_steps,
}
use gosk.Writer.SignalKLaws.{IsStuck, run_steps-IsStuck}
use gosk.Writer.SignalKLoad.{IsWaiting, count_requests, run_steps-IsWaiting}

-- A cache that forgets.
abbrev forgetful : ByteCache
forgetful = record {
  State = Unit;
  get = λ state k. none;
  set = λ state k bytes. state;
  entries = λ state. [];
}

abbrev codec : CacheCodec sample
codec = record {
  encode_raw = λ raw. none;
  decode_raw = λ bytes. none;
  encode_single = λ m. none;
  decode_single = λ bytes. (
    record {
      context = "";
      origin = "";
      source = new_source;
      timestamp = pos 0;
      path = "";
      value = nil;
    },
    false,
  );
  uuid_text = λ uuid. "";
  parse_uuid = λ text. none;
}

abbrev empty : BigCache forgetful
empty = record { raw_cache = tt; mapped_cache = tt }

-- Two clients come, a delta is to be sent to both, and the first one leaves.
abbrev before_leaving : List (Step sample)
before_leaving =
    accepted "10.0.0.1:80"
    ∷ accepted "10.0.0.2:80"
    ∷ updated (delta_of (update (speed 1 ∷ []) ∷ []))
    ∷ left 0
    ∷ []

abbrev abandoned : SignalKWriter forgetful sample
abandoned =
    run_steps forgetful sample codec before_leaving (new_signal_k_writer forgetful sample empty)

abbrev held_up : Sending sample
held_up = record { delta = delta_of (update (speed 1 ∷ []) ∷ []); waiting = 0 ∷ 1 ∷ [] }

abandoned-IsStuck : IsStuck forgetful sample codec 0 0 held_up abandoned
unfolding run_steps signal_k_step insert
abandoned-IsStuck = record { waits = refl; gone = (_, refl, refl) }

run_steps-IsStuck_example : IsStuck forgetful sample codec 0 0 held_up (
    run_steps forgetful sample codec
      (handed 0 ∷ updated (delta_of (update (speed 2 ∷ []) ∷ [])) ∷ handed 1 ∷ handed 0 ∷ [])
      abandoned)
run_steps-IsStuck_example =
    run_steps-IsStuck forgetful sample codec 0 0 held_up (1 ∷ []) refl
      (handed 0 ∷ updated (delta_of (update (speed 2 ∷ []) ∷ [])) ∷ handed 1 ∷ handed 0 ∷ [])
      abandoned abandoned-IsStuck

abbrev failing : List (Step sample)
failing = requested ∷ loaded none ∷ stored (delta_of (update (speed 1 ∷ []) ∷ [])) ∷ requested ∷ []

run_steps-IsWaiting_example :
    IsWaiting forgetful sample codec
      (count_requests failing)
      (run_steps forgetful sample codec failing (new_signal_k_writer forgetful sample empty))
run_steps-IsWaiting_example =
    run_steps-IsWaiting forgetful sample codec empty failing (tt, (tt, (tt, (tt, tt))))
