-- ===== src/Prelude/Assoc.antt =====
-- A Go map with text keys, as an association list: `m[k]`, `m[k] = v` and `delete(m, k)`.
use Prim.Native.String.{String}
use mathlib.Core.Path.{◌≡◌, refl, ap, ◌∙◌}
use mathlib.Core.Bool.{false}
use mathlib.Core.Logic.{◌⊎◌, inl, inr}
use mathlib.Core.Option.{Option, none, some}
use mathlib.Core.List.{List, [], ◌∷◌}
use native.Mathlib.Omega.{arith}
use text.Mathlib.Text.{◌==◌}
use text.Mathlib.TextEquality.{eq_iff}
use text.Mathlib.TextPositions.{eq_refl}
use gosk.Prelude.Tests.{Bool-cases, if◌then◌else◌}

abbrev pub Assoc {ℓ} : Type ℓ → Type ℓ
Assoc V = List (String × V)

module _ {ℓ} {V : Type ℓ} where
  unfoldable pub lookup : String → Assoc V → Option V
  lookup k [] = none
  lookup k ((j, v) ∷ m) = if j == k then some v else lookup k m

  unfoldable pub insert : String → V → Assoc V → Assoc V
  insert key value [] = (key, value) ∷ []
  insert key value ((k, v) ∷ rest) =
      let changed = insert key value rest in
      if k == key then (key, value) ∷ rest else (k, v) ∷ changed

  unfoldable pub delete : String → Assoc V → Assoc V
  delete k [] = []
  delete k ((j, v) ∷ m) = let rest = delete k m in if j == k then rest else (j, v) ∷ rest

  pub lookup-insert :
      (set asked : String) (value : V) (m : Assoc V)
      → lookup asked (insert set value m) ≡ (if set == asked then some value else lookup asked m)
  unfolding lookup insert
  lookup-insert set asked value [] = ground arith
  lookup-insert set asked value ((here, v) ∷ rest) = ground (
    arith,
    lookup-insert set asked value rest,
    eq_iff here set,
    eq_iff here asked,
    eq_iff set asked,
  )

  pub lookup-insert_self : (k : String) (v : V) (m : Assoc V) → lookup k (insert k v m) ≡ some v
  lookup-insert_self k v m = simp (lookup-insert, eq_refl)

  pub lookup-delete :
      (k j : String) (m : Assoc V) → lookup j (delete k m) ≡ (if k == j then none else lookup j m)
  unfolding lookup delete
  lookup-delete k j [] = ground arith
  lookup-delete k j ((i, v) ∷ m) =
      ground (arith, lookup-delete k j m, eq_iff i k, eq_iff i j, eq_iff k j)

  abbrev keep : String → Option V → Assoc V → Assoc V
  keep k none rest = rest
  keep k (some v) rest = (k, v) ∷ rest

  -- `for k, v := range m`, in which each entry is kept, replaced or deleted.
  unfoldable pub update_all : (String → V → Option V) → Assoc V → Assoc V
  update_all f [] = []
  update_all f ((k, v) ∷ m) = keep k (f k v) (update_all f m)

  -- No key stands twice, as in any Go map.
  abbrev pub Distinct : Assoc V → Type ℓ
  Distinct [] = Unit
  Distinct ((k, v) ∷ m) = (lookup k m ≡ none) × Distinct m

  pub insert-Distinct : (k : String) (v : V) (m : Assoc V) → Distinct m → Distinct (insert k v m)
  unfolding insert lookup
  insert-Distinct k v [] d = (refl, tt)
  insert-Distinct k v ((j, w) ∷ m) (new, d) = elim (Bool-cases (j == k)) [
    | inl e ↦ rw e (rw (← (eq_iff j k).0 e) new, d)
    | inr e ↦
        rw e
          (lookup-insert k j v m ∙ ground (arith, eq_iff k j, eq_iff j k), insert-Distinct k v m d)
  ]

  lookup-keep :
      (k j : String) (r : Option V) (rest : Assoc V)
      → lookup k rest ≡ none ⊎ (j == k) ≡ false
      → lookup k (keep j r rest) ≡ (if j == k then r else lookup k rest)
  unfolding lookup
  lookup-keep k j none rest h = ground arith
  lookup-keep k j (some v) rest h = refl

  abbrev pub mapped : (String → V → Option V) → String → Option V → Option V
  mapped f k none = none
  mapped f k (some v) = f k v

  pub lookup-update_all :
      (f : String → V → Option V) (k : String) (m : Assoc V)
      → Distinct m
      → lookup k (update_all f m) ≡ mapped f k (lookup k m)
  unfolding update_all lookup
  lookup-update_all f k [] d = refl
  lookup-update_all f k ((j, w) ∷ m) (new, d) = elim (Bool-cases (j == k)) [
    | inl e ↦
        let same = (eq_iff j k).0 e in
        let gone : lookup k m ≡ none = rw (← same) new in
        let rest = lookup-update_all f k m d in
        lookup-keep k j (f j w) (update_all f m) (inl (rest ∙ ap (mapped f k) gone))
        ∙ rw e (rw same refl)
    | inr e ↦ lookup-keep k j (f j w) (update_all f m) (inr e) ∙ rw e (lookup-update_all f k m d)
  ]

  keep-Distinct :
      (k : String) (r : Option V) (rest : Assoc V)
      → lookup k rest ≡ none
      → Distinct rest
      → Distinct (keep k r rest)
  keep-Distinct k none rest new d = d
  keep-Distinct k (some v) rest new d = (new, d)

  pub update_all-Distinct :
      (f : String → V → Option V) (m : Assoc V) → Distinct m → Distinct (update_all f m)
  unfolding update_all
  update_all-Distinct f [] d = tt
  update_all-Distinct f ((j, w) ∷ m) (new, d) =
      keep-Distinct j (f j w) (update_all f m) (lookup-update_all f j m d ∙ ap (mapped f j) new)
        (update_all-Distinct f m d)
