-- ===== src/Message/DecodeOrder.antt =====
-- `Decode` of message/: which type a value comes back with.
use gosk.Prelude.{◌≡◌, ◌≢◌, Bool, none, some, ok, err, arith}
use gosk.Message.Values.{Foreign, VesselType, Position, GoValue, boolean, vessel_type, position}
use gosk.Message.Decoding.{Mapstructure, cannot_decode, decode_struct, decode}

-- `mapstructure` reports an error on an input that is a Boolean where a struct is wanted.
pub record RejectsBooleans {w : Foreign} (m : Mapstructure w) : Type 0 where
  pub no_position : (b : Bool) → m.decode_position (boolean b) ≡ none
  pub no_vessel_info : (b : Bool) → m.decode_vessel_info (boolean b) ≡ none
  pub no_length : (b : Bool) → m.decode_length (boolean b) ≡ none
  pub no_alarm : (b : Bool) → m.decode_alarm (boolean b) ≡ none
  pub no_draft : (b : Bool) → m.decode_draft (boolean b) ≡ none

module _ {w : Foreign} (m : Mapstructure w) where
  struct-ne-vessel_type :
      (input : GoValue w) (t : VesselType) → decode_struct m input ≢ ok (vessel_type t)
  unfolding decode_struct
  struct-ne-vessel_type input t = ground arith

  -- No input is decoded to a `VesselType`.
  pub decode-ne-vessel_type :
      (input : GoValue w) (t : VesselType) → decode m input ≢ ok (vessel_type t)
  unfolding decode
  decode-ne-vessel_type (GoValue.int64 i) t = λ e. cc
  decode-ne-vessel_type (GoValue.float64 i) t = λ e. cc
  decode-ne-vessel_type (GoValue.text i) t = λ e. cc
  decode-ne-vessel_type input t = struct-ne-vessel_type input t

  -- A Boolean is an error.
  pub decode-boolean :
      RejectsBooleans m → (b : Bool) → decode m (boolean b) ≡ err (cannot_decode (boolean b))
  unfolding decode decode_struct
  decode-boolean h b =
      ground (arith, h.no_position b, h.no_vessel_info b, h.no_length b, h.no_alarm b, h.no_draft b)

  -- What fits both a `Position` and a `VesselInfo` is a `Position`: the first type tried wins.
  pub decode_struct-position :
      (input : GoValue w) (p : Position w)
      → m.decode_position input ≡ some (p, 0)
      → decode_struct m input ≡ ok (position p)
  unfolding decode_struct
  decode_struct-position input p h = ground arith
