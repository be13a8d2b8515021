-- ===== src/Prelude/Table.antt =====
-- A Go map whose keys are compared by a given test, as an association list.
use mathlib.Core.Path.{◌≡◌}
use mathlib.Core.Bool.{Bool, true}
use mathlib.Core.Logic.{◌↔◌}
use mathlib.Core.Option.{Option, none, some}
use mathlib.Core.List.{List, [], ◌∷◌}
use native.Mathlib.Omega.{arith}
use gosk.Prelude.Tests.{if◌then◌else◌}

-- The test decides equality.
abbrev pub IsLawful : {K : Type 0} → (K → K → Bool) → Type 0
IsLawful {K} same = (a b : K) → (same a b ≡ true) ↔ (a ≡ b)

module _ {K V : Type 0} (same : K → K → Bool) where
  unfoldable pub find : K → List (K × V) → Option V
  find k [] = none
  find k ((j, v) ∷ m) = if same j k then some v else find k m

  unfoldable pub put : K → V → List (K × V) → List (K × V)
  put key value [] = (key, value) ∷ []
  put key value ((k, v) ∷ rest) =
      let changed = put key value rest in
      if same k key then (key, value) ∷ rest else (k, v) ∷ changed

  unfoldable pub remove : K → List (K × V) → List (K × V)
  remove k [] = []
  remove k ((j, v) ∷ m) = let rest = remove k m in if same j k then rest else (j, v) ∷ rest

  abbrev pub keys : List (K × V) → List K
  keys [] = []
  keys ((k, v) ∷ m) = k ∷ keys m

  pub find-remove :
      IsLawful same
      → (k j : K) (m : List (K × V)) → find j (remove k m) ≡ (if same k j then none else find j m)
  unfolding find remove
  find-remove lawful k j [] = ground arith
  find-remove lawful k j ((i, v) ∷ m) =
      ground (arith, find-remove lawful k j m, lawful i k, lawful i j, lawful k j)

  pub find-put :
      IsLawful same
      → (k j : K) (v : V) (m : List (K × V))
      → find j (put k v m) ≡ (if same k j then some v else find j m)
  unfolding find put
  find-put lawful k j v [] = ground arith
  find-put lawful k j v ((i, u) ∷ m) =
      ground (arith, find-put lawful k j v m, lawful i k, lawful i j, lawful k j)
