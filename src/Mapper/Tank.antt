-- ===== src/Mapper/Tank.antt =====
-- mapper/expressions.go, the functions that every expression can call: `CurrentToRatio`,
-- `PressureToHeight`, and `HeightToVolume` with `ListToFloats`. The arithmetic of floats is the
-- parameter `Arithmetic`.
use gosk.Prelude.{
  ℕ, suc, ◌==◌, Bool, List, [], ◌∷◌, length, if◌then◌else◌, Option, none, some, Outcome, ok, err,
  ◌>>=◌,
}
use gosk.Prelude.Int.{ℤ, pos}
use gosk.Message.Values.{Foreign, GoValue, int64, float64, other}

-- The operations of Go on `float64`, the constant 9.8, and the conversions to it; `of_other` takes
-- the numbers of all types but `int64` and `float64`.
pub record Arithmetic (w : Foreign) : Type 0 where
  pub less : w.Float → w.Float → Bool
  pub less_equal : w.Float → w.Float → Bool
  pub plus : w.Float → w.Float → w.Float
  pub minus : w.Float → w.Float → w.Float
  pub times : w.Float → w.Float → w.Float
  pub over : w.Float → w.Float → w.Float
  pub gravity : w.Float
  pub of_int : ℤ → w.Float
  pub of_other : w.Other → Option w.Float

-- Each error with the position or the lengths in its text.
pub data TankError : Type 0 where
  different_lengths : ℕ → ℕ → TankError
  not_a_float : ℕ → TankError
  heights_not_increasing : ℕ → TankError
  volumes_not_increasing : ℕ → TankError

module _ {w : Foreign} (a : Arithmetic w) where
  abbrev pub current_to_ratio : w.Float → w.Float
  current_to_ratio current = a.over (a.minus current (a.of_int (pos 4000))) (a.of_int (pos 16000))

  abbrev pub pressure_to_height : w.Float → w.Float → w.Float
  pressure_to_height pressure density = a.over pressure (a.times density a.gravity)

  abbrev pub to_float : ℕ → GoValue w → Outcome TankError w.Float
  to_float i (int64 n) = ok (a.of_int n)
  to_float i (float64 x) = ok x
  to_float i (other o) = elim (a.of_other o) [ none ↦ err (not_a_float i) | some x ↦ ok x ]
  to_float i _ = err (not_a_float i)

  -- The loop of `ListToFloats`, from the position on.
  unfoldable pub list_to_floats : ℕ → List (GoValue w) → Outcome TankError (List w.Float)
  list_to_floats i [] = ok []
  list_to_floats i (v ∷ values) = do
    x ← to_float i v
    floats ← list_to_floats (suc i) values
    ok (x ∷ floats)

  -- The first loop of `HeightToVolume`, behind the point of the round before.
  unfoldable pub check_points :
      ℕ → w.Float → w.Float → List w.Float → List w.Float → Option TankError
  check_points i h v (h' ∷ heights) (v' ∷ volumes) =
      let rest = check_points (suc i) h' v' heights volumes in
      if a.less_equal h' h
      then some (heights_not_increasing i)
      else if a.less_equal v' v
      then some (volumes_not_increasing i)
      else rest
  check_points i h v _ _ = none

  abbrev pub check_table : List w.Float → List w.Float → Option TankError
  check_table (h ∷ heights) (v ∷ volumes) = check_points 1 h v heights volumes
  check_table _ _ = none

  abbrev pub interpolate : w.Float → w.Float → w.Float → w.Float → w.Float → w.Float
  interpolate level h v h' v' =
      a.plus (a.times (a.over (a.minus level h) (a.minus h' h)) (a.minus v' v)) v

  -- The second loop, behind a point that the level has reached.
  unfoldable pub volume_above : w.Float → w.Float → w.Float → List w.Float → List w.Float → w.Float
  volume_above level h v (h' ∷ heights) (v' ∷ volumes) =
      let rest = volume_above level h' v' heights volumes in
      if a.less level h' then interpolate level h v h' v' else rest
  volume_above level h v _ _ = v

  unfoldable pub volume_at : w.Float → List w.Float → List w.Float → w.Float
  unfolding volume_above
  volume_at level (h ∷ heights) (v ∷ volumes) =
      if a.less level h then a.of_int (pos 0) else volume_above level h v heights volumes
  volume_at level _ _ = a.of_int (pos 0)

  abbrev pub checked : Option TankError → w.Float → Outcome TankError w.Float
  checked none volume = ok volume
  checked (some e) volume = err e

  -- Behind the test of the lengths.
  abbrev pub of_tables : w.Float → List (GoValue w) → List (GoValue w) → Outcome TankError w.Float
  of_tables level heights volumes = do
    hs ← list_to_floats 0 heights
    vs ← list_to_floats 0 volumes
    checked (check_table hs vs) (volume_at level hs vs)

  unfoldable pub height_to_volume :
      w.Float → w.Float → List (GoValue w) → List (GoValue w) → Outcome TankError w.Float
  unfolding list_to_floats check_points volume_at
  height_to_volume height sensor_offset heights volumes =
      if length heights == length volumes
      then of_tables (a.plus height sensor_offset) heights volumes
      else err (different_lengths (length heights) (length volumes))
