-- ===== src/Mapper/CanFrame.antt =====
-- connector/canbus.go, `FrameToBytes`, and mapper/canbus.go, `createFrame`: a CAN frame as the bytes of
-- a raw message, and back.
use gosk.Prelude.{
  ℕ, ◌+◌, ◌*◌, ◌/◌, ◌%◌, ◌<◌, ◌≡◌, List, [], ◌∷◌, ◌++◌, length, take, drop, leb, if◌then◌else◌,
  Outcome, ok, panic,
}
use gosk.Mapper.Process.{MapError}

-- The fields of `can.Frame`: `dlc` is its `Length`, and `bytes` its `Data`, an array of eight bytes.
pub record CanFrame : Type 0 where
  pub id : ℕ
  pub dlc : ℕ
  pub flags : ℕ
  pub res0 : ℕ
  pub res1 : ℕ
  pub bytes : List ℕ

pub record IsFrame (frm : CanFrame) : Type 0 where
  pub id_fits : frm.id < 4294967296
  pub eight_bytes : length frm.bytes ≡ 8

-- `binary.BigEndian.PutUint32` and `binary.BigEndian.Uint32`.
unfoldable pub put_uint32 : ℕ → List ℕ
put_uint32 v = (v / 16777216 % 256) ∷ (v / 65536 % 256) ∷ (v / 256 % 256) ∷ (v % 256) ∷ []

unfoldable pub uint32 : ℕ → ℕ → ℕ → ℕ → ℕ
uint32 b0 b1 b2 b3 = b0 * 16777216 + b1 * 65536 + b2 * 256 + b3

unfoldable pub frame_to_bytes : CanFrame → List ℕ
unfolding put_uint32
frame_to_bytes frm = put_uint32 frm.id ++ frm.dlc ∷ frm.flags ∷ frm.res0 ∷ frm.res1 ∷ frm.bytes

-- The composite literal of `createFrame`, once its data is known to be there.
abbrev pub with_data : List ℕ → List ℕ → Outcome MapError CanFrame
with_data bytes (b0 ∷ b1 ∷ b2 ∷ b3 ∷ b4 ∷ b5 ∷ b6 ∷ b7 ∷ rest) =
    ok (record {
      id = uint32 b0 b1 b2 b3;
      dlc = b4;
      flags = b5;
      res0 = b6;
      res1 = b7;
      bytes = bytes;
    })
with_data bytes _ = panic

-- `spare` are the bytes of the array behind the slice `value`: a slice expression may go as far as
-- the capacity, while an index has to be below the length.
unfoldable pub create_frame : List ℕ → List ℕ → Outcome MapError CanFrame
create_frame spare value =
    if leb 16 (length value + length spare)
    then with_data (take 8 (drop 8 (value ++ spare))) value
    else panic
