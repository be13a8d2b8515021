-- ===== src/Mapper/CanFrameLaws.antt =====
-- A CAN frame as the bytes of connector/canbus.go, read back by mapper/canbus.go.

use gosk.Prelude.{
  ℕ, ◌+◌, ◌/◌, ◌%◌, ◌<◌, ◌≡◌, sym, ap, ◌∙◌, Bool, List, ◌++◌, length, take, take-append, panic,
  le→leb, if◌then◌else◌, ok, arith,
}
use gosk.Mapper.CanFrame.{
  CanFrame, IsFrame, put_uint32, uint32, frame_to_bytes, create_frame, with_data,
}

uint32-put :
    (v : ℕ)
    → v < 4294967296
    → uint32 (v / 16777216 % 256) (v / 65536 % 256) (v / 256 % 256) (v % 256) ≡ v
unfolding uint32
uint32-put v small = omega arith

-- The bytes that the connector makes of a frame with a 32-bit identifier and eight bytes of data are
-- read back as that frame, whatever stands behind them in memory.
pub create_frame-frame_to_bytes :
    (frm : CanFrame) (spare : List ℕ)
    → IsFrame frm
    → create_frame spare (frame_to_bytes frm) ≡ ok frm
unfolding create_frame frame_to_bytes put_uint32
create_frame-frame_to_bytes frm spare h =
    ap
      (λ (b : Bool).
        if b then with_data (take 8 (frm.bytes ++ spare)) (frame_to_bytes frm) else panic)
      (le→leb 16 (length (frame_to_bytes frm) + length spare) (omega (arith, h.eight_bytes)))
    ∙ ap (λ (b : List ℕ). with_data b (frame_to_bytes frm)) whole
    ∙ ap (λ (i : ℕ). ok (record frm { id = i })) (uint32-put frm.id h.id_fits)
  where
    whole : take 8 (frm.bytes ++ spare) ≡ frm.bytes
    whole =
        ap (λ (n : ℕ). take n (frm.bytes ++ spare)) (sym h.eight_bytes)
        ∙ take-append frm.bytes spare
