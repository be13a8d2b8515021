-- ===== src/Message/Merging.antt =====
-- `Merge` of message/: the newer value wins field by field, and the order of grouping is irrelevant.
use gosk.Prelude.{
  ◌≡◌, refl, ap, sym, ◌∙◌, List, [], ◌∷◌, Option, none, some, Option-cases, inl, inr, ok, err,
  panic, arith,
}
use gosk.Message.Values.{Foreign, GoValue}
use gosk.Message.Merger.{
  Merger, of_vessel_info, of_position, of_length, of_alarm, of_draft, override, override_slice,
  merge, as_merger, of_merger,
}
use gosk.Message.Delta.{SingleValueMapped, merge_single}

override_assoc :
    {A : Type 0} (a b c : Option A) → override (override a b) c ≡ override a (override b c)
override_assoc a b none = refl
override_assoc a b (some c) = refl

override_slice_assoc :
    {A : Type 0} (a b c : Option (List A))
    → override_slice (override_slice a b) c ≡ override_slice a (override_slice b c)
override_slice_assoc a b none = refl
override_slice_assoc a b (some []) = refl
override_slice_assoc a b (some (x ∷ xs)) = refl

override_idem : {A : Type 0} (a : Option A) → override a a ≡ a
override_idem none = refl
override_idem (some a) = refl

override_slice_idem : {A : Type 0} (a : Option (List A)) → override_slice a a ≡ a
override_slice_idem none = refl
override_slice_idem (some []) = refl
override_slice_idem (some (x ∷ xs)) = refl

module _ {w : Foreign} where
  merge_idem : (m : Merger w) → merge m m ≡ ok m
  unfolding merge
  merge_idem (of_vessel_info v) = simp override_idem
  merge_idem (of_position v) = simp override_idem
  merge_idem (of_length v) = simp override_idem
  merge_idem (of_alarm v) = simp override_idem
  merge_idem (of_draft v) = simp (override_idem, override_slice_idem)

  merger-of : (m : Merger w) → as_merger (of_merger m) ≡ some m
  unfolding as_merger of_merger
  merger-of (of_vessel_info v) = refl
  merger-of _ = refl

  of-merger : (v : GoValue w) (m : Merger w) → as_merger v ≡ some m → of_merger m ≡ v
  unfolding as_merger of_merger
  of-merger (GoValue.vessel_info v) m e = ground arith
  of-merger _ m e = ground arith

  -- The outcome of `SingleValueMapped.Merge` on the mergers themselves.
  abbrev join : Merger w → Merger w → Merger w
  join l r = elim (merge l r) [ ok m ↦ m | err e ↦ r | panic ↦ r ]

  join_assoc : (k l m n : Merger w) → merge l m ≡ ok n → join k n ≡ join (join k l) m
  unfolding merge
  join_assoc (of_vessel_info a) (of_vessel_info b) (of_vessel_info c) n e =
      ground (arith, override_assoc a.mmsi b.mmsi c.mmsi, override_assoc a.name b.name c.name)
  join_assoc (of_position a) (of_position b) (of_position c) n e = ground (
    arith,
    override_assoc a.altitude b.altitude c.altitude,
    override_assoc a.latitude b.latitude c.latitude,
    override_assoc a.longitude b.longitude c.longitude,
  )
  join_assoc (of_length a) (of_length b) (of_length c) n e = ground (
    arith,
    override_assoc a.overall b.overall c.overall,
    override_assoc a.hull b.hull c.hull,
    override_assoc a.waterline b.waterline c.waterline,
  )
  join_assoc (of_alarm a) (of_alarm b) (of_alarm c) n e =
      ground (
        arith,
        override_assoc a.state b.state c.state,
        override_assoc a.message b.message c.message,
      )
  join_assoc (of_draft a) (of_draft b) (of_draft c) n e = ground (
    arith,
    override_assoc a.current b.current c.current,
    override_slice_assoc a.current_port b.current_port c.current_port,
    override_slice_assoc a.current_starboard b.current_starboard c.current_starboard,
  )
  join_assoc _ _ _ n e = ground arith

  join_ok : (l m n : Merger w) → merge l m ≡ ok n → join l m ≡ n
  join_ok l m n e = rw (e, join)

  merge_single-join :
      (left right : SingleValueMapped w) (l r : Merger w)
      → as_merger left.value ≡ some l
      → as_merger right.value ≡ some r
      → merge_single left right ≡ record right { value = of_merger (join l r) }
  unfolding merge_single
  merge_single-join left right l r hl hr = ground (arith, of-merger right.value r hr)

  merge_single-none :
      (left right : SingleValueMapped w)
      → as_merger left.value ≡ none
      → merge_single left right ≡ right
  unfolding merge_single
  merge_single-none left right h = rw (h, merge_single)

  -- Merging three values in either grouping gives the same value, if the two newest can be merged.
  pub merge_single_assoc :
      (a b c : SingleValueMapped w) (l m n : Merger w)
      → as_merger b.value ≡ some l
      → as_merger c.value ≡ some m
      → merge l m ≡ ok n
      → merge_single a (merge_single b c) ≡ merge_single (merge_single a b) c
  merge_single_assoc a b c l m n hb hc e = elim (Option-cases (as_merger a.value)) [
    | inl ha ↦ rw (merge_single-none a (merge_single b c) ha, merge_single-none a b ha)
    | inr (k, ha) ↦
        rw (merge_single-join b c l m hb hc, merge_single-join a b k l ha hb)
          (merge_single-join a _ k (join l m) ha (merger-of (join l m))
            ∙ ap (λ x. record c { value = of_merger x }) (grouped k)
            ∙ sym (merge_single-join _ c (join k l) m (merger-of (join k l)) hc))
  ]
    where
      grouped : (k : Merger w) → join k (join l m) ≡ join (join k l) m
      grouped k = ap (λ x. join k x) (join_ok l m n e) ∙ join_assoc k l m n e

  -- Merging a value with itself changes nothing.
  pub merge_single_idem : (s : SingleValueMapped w) → merge_single s s ≡ s
  unfolding merge_single
  merge_single_idem s = elim (Option-cases (as_merger s.value)) [
    | inl h ↦ merge_single-none s s h
    | inr (m, h) ↦
        merge_single-join s s m m h h ∙ ground (arith, merge_idem m, of-merger s.value m h)
  ]
