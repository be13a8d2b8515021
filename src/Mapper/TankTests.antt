-- ===== src/Mapper/TankTests.antt =====
-- The theorems about `HeightToVolume` of mapper/expressions.go at concrete inputs.
use gosk.Prelude.{◌≡◌, refl, ◌+◌, ◌-◌, ◌*◌, ◌/◌, ltb, leb, List, [], ◌∷◌, none, ok, arith}
use gosk.Prelude.Int.{pos, negsuc}
use gosk.Message.Values.{GoValue, int64, float64}
use gosk.Message.Samples.{sample}
use gosk.Mapper.Tank.{Arithmetic, list_to_floats, height_to_volume}
use gosk.Mapper.TankLaws.{IsOrdered, height_to_volume-between}

-- Whole numbers, of which there are none below zero, with quotients in hundredths.
abbrev hundredths : Arithmetic sample
hundredths = record {
  less = ltb;
  less_equal = leb;
  plus = ◌+◌;
  minus = ◌-◌;
  times = λ x y. x * y / 100;
  over = λ x y. x * 100 / y;
  gravity = 9;
  of_int = λ n. elim n [ pos k ↦ k | negsuc k ↦ 0 ];
  of_other = λ o. none;
}

hundredths-IsOrdered : IsOrdered hundredths
hundredths-IsOrdered = record {
  IsNumber = λ n. Unit;
  below = λ level lower higher number low up. ground arith;
}

abbrev heights : List (GoValue sample)
heights = int64 (pos 10) ∷ float64 20 ∷ int64 (pos 30) ∷ []

abbrev volumes : List (GoValue sample)
volumes = int64 (pos 0) ∷ int64 (pos 100) ∷ float64 400 ∷ []

heights_are : list_to_floats hundredths 0 heights ≡ ok (10 ∷ 20 ∷ 30 ∷ [])
unfolding list_to_floats
heights_are = refl

volumes_are : list_to_floats hundredths 0 volumes ≡ ok (0 ∷ 100 ∷ 400 ∷ [])
unfolding list_to_floats
volumes_are = refl

height_to_volume-between_example : height_to_volume hundredths 20 5 heights volumes ≡ ok 250
unfolding hundredths-IsOrdered
height_to_volume-between_example =
    height_to_volume-between hundredths hundredths-IsOrdered 20 5 heights volumes
      (10 ∷ 20 ∷ 30 ∷ []) (0 ∷ 100 ∷ 400 ∷ []) refl heights_are volumes_are (refl, (refl, tt))
      (refl, (refl, tt)) (tt, (tt, (tt, tt))) 1 20 30 100 400 refl refl refl refl refl refl
