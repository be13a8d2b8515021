-- ===== src/Mapper/CanMappings.antt =====
-- Which mapping the two maps of mapper/canbus.go hold for a signal.

use gosk.Prelude.{
  ◌≡◌, refl, ap, ◌∙◌, Bool, ◌&&◌, String, str_eq, eq_iff, List, [], ◌∷◌, inl, inr, Bool-cases,
  if◌then◌else◌, Option, none, some, arith,
}
use gosk.Prelude.Assoc.{Assoc, lookup, insert, lookup-insert}
use gosk.Message.Values.{Foreign}
use gosk.Mapper.CanBus.{CanBusMappingConfig, or_new, add_mapping, add_mappings, find_mapping}

module _ {w : Foreign} where
  -- The last of the mappings for a signal of a message.
  abbrev pub last_for :
      String → String → List (CanBusMappingConfig w) → Option (CanBusMappingConfig w)
  last_for origin name [] = none
  last_for origin name (m ∷ configs) = elim (last_for origin name configs) [
    | some later ↦ some later
    | none ↦ if str_eq m.origin origin && str_eq m.name name then some m else none
  ]

  abbrev or_else :
      Option (CanBusMappingConfig w)
      → Option (CanBusMappingConfig w)
      → Option (CanBusMappingConfig w)
  or_else (some later) earlier = some later
  or_else none earlier = earlier

  find-add_mapping :
      (mappings : Assoc (Assoc (CanBusMappingConfig w))) (m : CanBusMappingConfig w)
      (origin name : String)
      → find_mapping (add_mapping mappings m) origin name ≡ (
          if str_eq m.origin origin && str_eq m.name name
          then some m
          else find_mapping mappings origin name)
  unfolding find_mapping
  find-add_mapping mappings m origin name =
      ap (λ (found : Option (Assoc (CanBusMappingConfig w))). lookup name (or_new found))
        (lookup-insert m.origin origin (insert m.name m (or_new (lookup m.origin mappings)))
          mappings)
      ∙ elim (Bool-cases (str_eq m.origin origin)) [
        | inl e ↦ rw e (
            lookup-insert m.name name m (or_new (lookup m.origin mappings))
            ∙ ap
                (λ (o : String).
                  if str_eq m.name name then some m else lookup name (or_new (lookup o mappings)))
                ((eq_iff m.origin origin).0 e))
        | inr e ↦ rw e refl
      ]

  -- The same with what stands before it in the list.
  or_else-last :
      (later : Option (CanBusMappingConfig w)) (m : CanBusMappingConfig w) (hit : Bool)
      (earlier found : Option (CanBusMappingConfig w))
      → found ≡ (if hit then some m else earlier)
      → or_else later found
        ≡ or_else (elim later [ some c ↦ some c | none ↦ if hit then some m else none ]) earlier
  or_else-last later m hit earlier found e = ground arith

  find-add_mappings :
      (configs : List (CanBusMappingConfig w)) (mappings : Assoc (Assoc (CanBusMappingConfig w)))
      (origin name : String)
      → find_mapping (add_mappings configs mappings) origin name
        ≡ or_else (last_for origin name configs) (find_mapping mappings origin name)
  unfolding add_mappings
  find-add_mappings [] mappings origin name = refl
  find-add_mappings (m ∷ configs) mappings origin name =
      find-add_mappings configs (add_mapping mappings m) origin name
      ∙ or_else-last (last_for origin name configs) m (str_eq m.origin origin && str_eq m.name name)
          (find_mapping mappings origin name) (find_mapping (add_mapping mappings m) origin name)
          (find-add_mapping mappings m origin name)

  pub find-configs :
      (configs : List (CanBusMappingConfig w)) (origin name : String)
      → find_mapping (add_mappings configs []) origin name ≡ last_for origin name configs
  unfolding find_mapping lookup
  find-configs configs origin name =
      find-add_mappings configs [] origin name ∙ ends (last_for origin name configs)
    where
      ends : (last : Option (CanBusMappingConfig w)) → or_else last none ≡ last
      ends last = ground arith
