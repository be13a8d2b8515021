-- ===== src/Mapper/TankTables.antt =====
-- Which tables `HeightToVolume` of mapper/expressions.go accepts.
use gosk.Prelude.{◌≡◌, List, length, ok}
use gosk.Message.Values.{Foreign, GoValue}
use gosk.Mapper.Tank.{Arithmetic, list_to_floats}
use gosk.Mapper.TankLaws.{IsRising}

module _ {w : Foreign} (a : Arithmetic w) where
  -- As many volumes as heights, all of them numbers, and both rising.
  pub record IsTable (heights volumes : List (GoValue w)) : Type 0 where
    pub same_length : length heights ≡ length volumes
    pub hs : List w.Float
    pub vs : List w.Float
    pub heights_are : list_to_floats a 0 heights ≡ ok hs
    pub volumes_are : list_to_floats a 0 volumes ≡ ok vs
    pub heights_rise : IsRising a hs
    pub volumes_rise : IsRising a vs
