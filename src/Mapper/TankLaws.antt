-- ===== src/Mapper/TankLaws.antt =====
-- The volume that `HeightToVolume` of mapper/expressions.go finds in a table.
use gosk.Prelude.{
  ℕ, zero, suc, ◌≡◌, refl, ap, inl, inr, true, false, ==_iff, Bool-cases, List, [], ◌∷◌, All,
  length, get_elem?, none, some, ok,
}
use gosk.Message.Values.{Foreign, GoValue}
use gosk.Mapper.Tank.{
  Arithmetic, list_to_floats, check_points, check_table, interpolate, volume_above, volume_at,
  height_to_volume,
}

-- What IEEE 754 says of comparisons: a level below a number is below each greater one.
pub record IsOrdered {w : Foreign} (a : Arithmetic w) : Type 1 where
  pub IsNumber : w.Float → Type 0
  pub below :
      (level lower higher : w.Float)
      → IsNumber higher
      → a.less level lower ≡ true
      → a.less_equal higher lower ≡ false
      → a.less level higher ≡ true

module _ {w : Foreign} (a : Arithmetic w) where
  -- Behind a first one, each is not less than or equal to the one before.
  abbrev pub RisesFrom : w.Float → List w.Float → Type 0
  RisesFrom x [] = Unit
  RisesFrom x (y ∷ floats) = (a.less_equal y x ≡ false) × RisesFrom y floats

  abbrev pub IsRising : List w.Float → Type 0
  IsRising [] = Unit
  IsRising (x ∷ floats) = RisesFrom x floats

  check_points-none :
      (i : ℕ) (h v : w.Float) (hs vs : List w.Float)
      → RisesFrom h hs
      → RisesFrom v vs
      → check_points a i h v hs vs ≡ none
  unfolding check_points
  check_points-none i h v [] vs up up' = refl
  check_points-none i h v (h' ∷ hs) [] up up' = refl
  check_points-none i h v (h' ∷ hs) (v' ∷ vs) (here, up) (here', up') =
      rw (here, here') (check_points-none (suc i) h' v' hs vs up up')

  pub check_table-none :
      (hs vs : List w.Float) → IsRising hs → IsRising vs → check_table a hs vs ≡ none
  check_table-none [] vs up up' = refl
  check_table-none (h ∷ hs) [] up up' = refl
  check_table-none (h ∷ hs) (v ∷ vs) up up' = check_points-none 1 h v hs vs up up'

  module _ (o : IsOrdered a) where
    -- A level below a height of the table is below all later ones.
    below_later :
        (level h : w.Float) (hs : List w.Float) (i : ℕ) (x : w.Float)
        → RisesFrom h hs
        → All o.IsNumber hs
        → a.less level h ≡ true
        → get_elem? (h ∷ hs) i ≡ some x
        → a.less level x ≡ true
    below_later level h hs zero x up numbers under e = cc
    below_later level h [] (suc i) x up numbers under e = cc
    below_later level h (h' ∷ hs) (suc i) x (here, up) (number, numbers) under e =
        below_later level h' hs i x up numbers (o.below level h h' number under here) e

    volume_above-between :
        (level h0 v0 : w.Float) (hs vs : List w.Float) (i : ℕ) (h h' v v' : w.Float)
        → RisesFrom h0 hs
        → All o.IsNumber hs
        → get_elem? (h0 ∷ hs) i ≡ some h
        → get_elem? hs i ≡ some h'
        → get_elem? (v0 ∷ vs) i ≡ some v
        → get_elem? vs i ≡ some v'
        → a.less level h ≡ false
        → a.less level h' ≡ true
        → volume_above a level h0 v0 hs vs ≡ interpolate a level h v h' v'
    unfolding volume_above
    volume_above-between level h0 v0 [] vs i h h' v v' up numbers e e' f f' over under = cc
    volume_above-between level h0 v0 (h1 ∷ hs) [] i h h' v v' up numbers e e' f f' over under = cc
    volume_above-between level h0 v0 (h1 ∷ hs) (v1 ∷ vs) zero h h' v v' up numbers e e' f f' over
          under =
        let lower : h0 ≡ h = cc in
        let upper : h1 ≡ h' = cc in
        let lower_volume : v0 ≡ v = cc in
        let upper_volume : v1 ≡ v' = cc in
        rw (volume_above, lower, upper, lower_volume, upper_volume, under) refl
    volume_above-between level h0 v0 (h1 ∷ hs) (v1 ∷ vs) (suc i) h h' v v' (here, up)
          (number, numbers) e e' f f' over under =
        elim (Bool-cases (a.less level h1)) [
          | inl low ↦
              let too_low : a.less level h ≡ true = below_later level h1 hs i h up numbers low e in
              absurd cc
          | inr reached ↦
              rw (volume_above, reached)
                (volume_above-between level h1 v1 hs vs i h h' v v' up numbers e e' f f' over under)
        ]

    volume_at-between :
        (level : w.Float) (hs vs : List w.Float) (i : ℕ) (h h' v v' : w.Float)
        → IsRising hs
        → All o.IsNumber hs
        → get_elem? hs i ≡ some h
        → get_elem? hs (suc i) ≡ some h'
        → get_elem? vs i ≡ some v
        → get_elem? vs (suc i) ≡ some v'
        → a.less level h ≡ false
        → a.less level h' ≡ true
        → volume_at a level hs vs ≡ interpolate a level h v h' v'
    unfolding volume_at
    volume_at-between level [] vs i h h' v v' up numbers e e' f f' over under = cc
    volume_at-between level (h0 ∷ hs) [] i h h' v v' up numbers e e' f f' over under = cc
    volume_at-between level (h0 ∷ hs) (v0 ∷ vs) i h h' v v' up (number, numbers) e e' f f' over
          under =
        elim (Bool-cases (a.less level h0)) [
          | inl low ↦
              let too_low : a.less level h ≡ true = below_later level h0 hs i h up numbers low e in
              absurd cc
          | inr reached ↦
              rw reached
                (volume_above-between level h0 v0 hs vs i h h' v v' up numbers e e' f f' over under)
        ]

    -- In a table of as many volumes as heights, both of them rising and the heights numbers: a level
    -- that has reached a height h with the volume v and is below the next height h' with the volume
    -- v' has the volume (level - h) / (h' - h) * (v' - v) + v, in the arithmetic of floats.
    pub height_to_volume-between :
        (height offset : w.Float) (heights volumes : List (GoValue w)) (hs vs : List w.Float)
        → length heights ≡ length volumes
        → list_to_floats a 0 heights ≡ ok hs
        → list_to_floats a 0 volumes ≡ ok vs
        → IsRising hs
        → IsRising vs
        → All o.IsNumber hs
        → (i : ℕ) (h h' v v' : w.Float) → get_elem? hs i ≡ some h
        → get_elem? hs (suc i) ≡ some h'
        → get_elem? vs i ≡ some v
        → get_elem? vs (suc i) ≡ some v'
        → a.less (a.plus height offset) h ≡ false
        → a.less (a.plus height offset) h' ≡ true
        → height_to_volume a height offset heights volumes
          ≡ ok (
              a.plus
                (a.times (a.over (a.minus (a.plus height offset) h) (a.minus h' h)) (a.minus v' v))
                v)
    unfolding height_to_volume
    height_to_volume-between height offset heights volumes hs vs same eh ev up up' numbers i h h' v
          v' e e' f f' over under =
        rw
          ((==_iff (length heights) (length volumes)).1 same, eh, ev, check_table-none hs vs up up')
          (ap ok (
            volume_at-between (a.plus height offset) hs vs i h h' v v' up numbers e e' f f' over
              under))
