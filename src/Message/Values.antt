-- ===== src/Message/Values.antt =====
-- message/mapped_update_value_types.go, the value types, and the `interface{}` values of a delta
-- with the two comparisons that the package makes of them: `==` and `reflect.DeepEqual`.
use gosk.Prelude.{
  ℕ, Bool, true, false, ◌&&◌, ◌||◌, ◌==◌, String, str_eq, List, [], ◌∷◌, Option, none, some,
}
use gosk.Prelude.Int.{ℤ, pos, negsuc}

-- Floats, and the dynamic values (maps, slices, other integer types) that the package only hands
-- on. `==` on two of these is `none` where Go panics, on maps and slices.
pub record Foreign : Type 1 where
  pub Float : Type 0
  pub Other : Type 0
  pub float_equal : Float → Float → Bool
  pub other_equal : Other → Other → Option Bool
  pub other_deep_equal : Other → Other → Bool

-- A pointer that is not nil: its address, and what it points to, which is never written again.
pub record Pointer (A : Type 0) : Type 0 where
  pub address : ℕ
  pub target : A

pub record VesselInfo : Type 0 where
  pub mmsi : Option (Pointer String)
  pub name : Option (Pointer String)

pub record VesselType : Type 0 where
  pub id : Option (Pointer ℤ)
  pub name : Option (Pointer String)

pub record Position (w : Foreign) : Type 0 where
  pub altitude : Option (Pointer w.Float)
  pub latitude : Option (Pointer w.Float)
  pub longitude : Option (Pointer w.Float)

pub record Length (w : Foreign) : Type 0 where
  pub overall : Option (Pointer w.Float)
  pub hull : Option (Pointer w.Float)
  pub waterline : Option (Pointer w.Float)

pub record Alarm : Type 0 where
  pub state : Option (Pointer Bool)
  pub message : Option (Pointer String)

-- A slice is `none` if it is nil.
pub record Draft (w : Foreign) : Type 0 where
  pub current : Option (Pointer w.Float)
  pub current_port : Option (List w.Float)
  pub current_starboard : Option (List w.Float)

pub data GoValue (w : Foreign) : Type 0 where
  nil : GoValue w
  int64 : ℤ → GoValue w
  float64 : w.Float → GoValue w
  text : String → GoValue w
  boolean : Bool → GoValue w
  vessel_info : VesselInfo → GoValue w
  vessel_type : VesselType → GoValue w
  position : Position w → GoValue w
  length_value : Length w → GoValue w
  alarm : Alarm → GoValue w
  draft : Draft w → GoValue w
  other : w.Other → GoValue w

abbrev pub int_equal : ℤ → ℤ → Bool
int_equal (pos a) (pos b) = a == b
int_equal (negsuc a) (negsuc b) = a == b
int_equal _ _ = false

abbrev pub bool_equal : Bool → Bool → Bool
bool_equal true b = b
bool_equal false true = false
bool_equal false false = true

-- `==` on pointers compares addresses.
abbrev pub pointer_equal : {A : Type 0} → Option (Pointer A) → Option (Pointer A) → Bool
pointer_equal none none = true
pointer_equal (some p) (some q) = p.address == q.address
pointer_equal _ _ = false

-- `reflect.DeepEqual` on pointers compares addresses, and then what they point to.
abbrev pub pointer_deep_equal :
    {A : Type 0} → (A → A → Bool) → Option (Pointer A) → Option (Pointer A) → Bool
pointer_deep_equal same none none = true
pointer_deep_equal same (some p) (some q) = p.address == q.address || same p.target q.target
pointer_deep_equal same _ _ = false

abbrev pub floats_equal : {A : Type 0} → (A → A → Bool) → List A → List A → Bool
floats_equal same [] [] = true
floats_equal same (x ∷ xs) (y ∷ ys) = same x y && floats_equal same xs ys
floats_equal same _ _ = false

abbrev pub slice_deep_equal :
    {A : Type 0} → (A → A → Bool) → Option (List A) → Option (List A) → Bool
slice_deep_equal same none none = true
slice_deep_equal same (some xs) (some ys) = floats_equal same xs ys
slice_deep_equal same _ _ = false

module _ (w : Foreign) where
  -- `==` on two `interface{}` values: false on different dynamic types, and a panic, `none`, on
  -- two values of one type that has slices inside.
  unfoldable pub value_equal : GoValue w → GoValue w → Option Bool
  value_equal nil nil = some true
  value_equal (int64 a) (int64 b) = some (int_equal a b)
  value_equal (float64 a) (float64 b) = some (w.float_equal a b)
  value_equal (text a) (text b) = some (str_eq a b)
  value_equal (boolean a) (boolean b) = some (bool_equal a b)
  value_equal (vessel_info a) (vessel_info b) =
      some (pointer_equal a.mmsi b.mmsi && pointer_equal a.name b.name)
  value_equal (vessel_type a) (vessel_type b) =
      some (pointer_equal a.id b.id && pointer_equal a.name b.name)
  value_equal (position a) (position b) = some (
      pointer_equal a.altitude b.altitude
      && (pointer_equal a.latitude b.latitude && pointer_equal a.longitude b.longitude))
  value_equal (length_value a) (length_value b) = some (
      pointer_equal a.overall b.overall
      && (pointer_equal a.hull b.hull && pointer_equal a.waterline b.waterline))
  value_equal (alarm a) (alarm b) =
      some (pointer_equal a.state b.state && pointer_equal a.message b.message)
  value_equal (draft a) (draft b) = none
  value_equal (other a) (other b) = w.other_equal a b
  value_equal _ _ = some false

  unfoldable pub deep_equal : GoValue w → GoValue w → Bool
  deep_equal nil nil = true
  deep_equal (int64 a) (int64 b) = int_equal a b
  deep_equal (float64 a) (float64 b) = w.float_equal a b
  deep_equal (text a) (text b) = str_eq a b
  deep_equal (boolean a) (boolean b) = bool_equal a b
  deep_equal (vessel_info a) (vessel_info b) =
      pointer_deep_equal str_eq a.mmsi b.mmsi && pointer_deep_equal str_eq a.name b.name
  deep_equal (vessel_type a) (vessel_type b) =
      pointer_deep_equal int_equal a.id b.id && pointer_deep_equal str_eq a.name b.name
  deep_equal (position a) (position b) =
      pointer_deep_equal w.float_equal a.altitude b.altitude
      && (pointer_deep_equal w.float_equal a.latitude b.latitude
          && pointer_deep_equal w.float_equal a.longitude b.longitude)
  deep_equal (length_value a) (length_value b) =
      pointer_deep_equal w.float_equal a.overall b.overall
      && (pointer_deep_equal w.float_equal a.hull b.hull
          && pointer_deep_equal w.float_equal a.waterline b.waterline)
  deep_equal (alarm a) (alarm b) =
      pointer_deep_equal bool_equal a.state b.state && pointer_deep_equal str_eq a.message b.message
  deep_equal (draft a) (draft b) =
      pointer_deep_equal w.float_equal a.current b.current
      && (slice_deep_equal w.float_equal a.current_port b.current_port
          && slice_deep_equal w.float_equal a.current_starboard b.current_starboard)
  deep_equal (other a) (other b) = w.other_deep_equal a b
  deep_equal _ _ = false
