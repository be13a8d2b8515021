-- ===== src/Modbus/Polling.antt =====
-- The buffer of `Poll` in protocol/modbus.go: it is large enough for every group that the connector
-- accepts, and every slice that was sent shows the newest frame.
use gosk.Prelude.{
  ℕ, ◌≤◌, ◌≡◌, ◌≢◌, refl, List, [], ◌∷◌, ◌++◌, length, drop, take, take-append, All, All-append,
  some, le→leb, sym, ◌∙◌, ok, panic, arith,
}
use gosk.Modbus.Codec.{ModbusHeader}
use gosk.Modbus.FrameLength.{AnswersInFull, frame_length, length-read_frame}
use gosk.Modbus.Client.{Device, ReadError, read_frame}
use gosk.Modbus.Poll.{fill, Polled, poll_tick}

module _ (array frame : List ℕ) (fits : length frame ≤ length array) where
  take-fill : take (length frame) (fill array frame) ≡ frame
  unfolding fill
  take-fill = ground (arith, take-append frame (drop (length frame) array))

module _ (device : Device) (full : AnswersInFull device) (header : ModbusHeader) where
  open device use {State, Failure}

  abbrev Progress : Type 0
  Progress = Polled State (ReadError Failure)

  -- The loop has not panicked, and each slice that it sent is a whole frame within the buffer.
  pub record IsPollSafe (p : Progress) : Type 0 where
    pub room : length p.array ≡ frame_length header
    pub whole_frames : All (λ n. n ≡ frame_length header) p.sent
    pub no_panic : p.stopped ≢ some panic

  shows_frame :
      (n : ℕ) (array frame : List ℕ)
      → n ≡ length frame
      → length frame ≤ length array
      → take n (fill array frame) ≡ frame
  shows_frame n array frame e fits = rw e (take-fill array frame fits)

  All-show :
      (lengths array frame : List ℕ)
      → length frame ≡ frame_length header
      → length frame ≤ length array
      → All (λ n. n ≡ frame_length header) lengths
      → All (λ n. take n (fill array frame) ≡ frame) lengths
  All-show [] array frame size fits h = tt
  All-show (n ∷ lengths) array frame size fits (here, later) = (
    shows_frame n array frame (here ∙ sym size) fits,
    All-show lengths array frame size fits later,
  )

  -- Every slice that was ever sent shows the frame of the newest successful tick: a reader that
  -- has not consumed an older slice by then finds the newer frame in it.
  pub poll_tick-overwrites :
      (p : Progress) (frame : List ℕ)
      → IsPollSafe p
      → (read_frame device header p.device).0 ≡ ok frame
      → ((poll_tick device header p).sent ≡ p.sent ++ length frame ∷ [])
        × All
            (λ n. take n (poll_tick device header p).array ≡ frame)
            (poll_tick device header p).sent
  unfolding poll_tick
  poll_tick-overwrites p frame safe e =
      let size = length-read_frame device full header p.device frame e in
      let fits : length frame ≤ length p.array = omega (arith, safe.room) in
      rw e (
        rw (le→leb _ _ fits) (
          refl,
          All-show (p.sent ++ length frame ∷ []) p.array frame size fits
              (All-append _ p.sent _ safe.whole_frames (size, tt)),
        ))
