-- ===== src/Message/Merger.antt =====
-- message/mapped_update_value_types.go, the interface `Merger` and its five implementations.
use gosk.Prelude.{List, [], ◌∷◌, Option, none, some, Outcome, ok, err}
use gosk.Message.Values.{
  Foreign, VesselInfo, Position, Length, Alarm, Draft, GoValue, vessel_info, position, length_value,
  alarm, draft,
}

-- The values of the interface: one constructor for each implementation.
pub data Merger (w : Foreign) : Type 0 where
  of_vessel_info : VesselInfo → Merger w
  of_position : Position w → Merger w
  of_length : Length w → Merger w
  of_alarm : Alarm → Merger w
  of_draft : Draft w → Merger w

pub data MergeError : Type 0 where
  wrong_type : MergeError

-- `if right.X != nil { left.X = right.X }`
abbrev pub override : {A : Type 0} → Option A → Option A → Option A
override left none = left
override left (some r) = some r

-- `if len(right.X) != 0 { left.X = right.X }`
abbrev pub override_slice : {A : Type 0} → Option (List A) → Option (List A) → Option (List A)
override_slice left none = left
override_slice left (some []) = left
override_slice left (some (x ∷ xs)) = some (x ∷ xs)

module _ {w : Foreign} where
  -- `left.Merge(right)`: the result has the dynamic type of `left`.
  unfoldable pub merge : Merger w → Merger w → Outcome MergeError (Merger w)
  merge (of_vessel_info left) (of_vessel_info right) = ok (
      of_vessel_info
        (record { mmsi = override left.mmsi right.mmsi; name = override left.name right.name }))
  merge (of_position left) (of_position right) = ok (
      of_position (record {
        altitude = override left.altitude right.altitude;
        latitude = override left.latitude right.latitude;
        longitude = override left.longitude right.longitude;
      }))
  merge (of_length left) (of_length right) = ok (
      of_length (record {
        overall = override left.overall right.overall;
        hull = override left.hull right.hull;
        waterline = override left.waterline right.waterline;
      }))
  merge (of_alarm left) (of_alarm right) = ok (
      of_alarm (record {
        state = override left.state right.state;
        message = override left.message right.message;
      }))
  merge (of_draft left) (of_draft right) = ok (
      of_draft (record {
        current = override left.current right.current;
        current_port = override_slice left.current_port right.current_port;
        current_starboard = override_slice left.current_starboard right.current_starboard;
      }))
  merge left right = err wrong_type

  -- `value.(Merger)`: `VesselType` does not implement the interface.
  unfoldable pub as_merger : GoValue w → Option (Merger w)
  as_merger (vessel_info v) = some (of_vessel_info v)
  as_merger (position v) = some (of_position v)
  as_merger (length_value v) = some (of_length v)
  as_merger (alarm v) = some (of_alarm v)
  as_merger (draft v) = some (of_draft v)
  as_merger v = none

  unfoldable pub of_merger : Merger w → GoValue w
  of_merger (of_vessel_info v) = vessel_info v
  of_merger (of_position v) = position v
  of_merger (of_length v) = length_value v
  of_merger (of_alarm v) = alarm v
  of_merger (of_draft v) = draft v
