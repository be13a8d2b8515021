-- ===== src/Message/Comparison.antt =====
-- `Equals` of message/: what a comparison of two updates finds, when it panics, and that it is not
-- symmetric.
use gosk.Prelude.{
  ◌≡◌, ◌≢◌, ◌⊎◌, inl, inr, refl, sym, Bool, true, false, ◌||◌, ◌==◌, eq_iff, List, [], ◌∷◌, length,
  All, Option, none, some, Option-cases, Bool-cases, arith,
}
use gosk.Message.Values.{Foreign, Draft, draft, value_equal}
use gosk.Message.Delta.{
  Value, Update, value_equals, found_in, all_found, lists_equal, update_equals,
}

-- Some element satisfies the predicate.
abbrev pub Any : {A : Type 0} → (A → Type 0) → List A → Type 0
Any P [] = ⊥
Any P (x ∷ xs) = P x ⊎ Any P xs

module _ {A : Type 0} (same : A → A → Option Bool) where
  abbrev Match : A → A → Type 0
  Match x y = same x y ≡ some true

  -- What the flag holds after one more element, and the other way round.
  collect-Match :
      (x y : A) (ys : List A) (found b : Bool)
      → same x y ≡ some b
      → ((found || b) ≡ true) ⊎ Any (Match x) ys
      → (found ≡ true) ⊎ Any (Match x) (y ∷ ys)
  collect-Match x y ys true b e r = inl refl
  collect-Match x y ys false true e r = inr (inl e)
  collect-Match x y ys false false e (inl p) = cc
  collect-Match x y ys false false e (inr later) = inr (inr later)

  spread-Match :
      (x y : A) (ys : List A) (found b : Bool)
      → same x y ≡ some b
      → (found ≡ true) ⊎ Any (Match x) (y ∷ ys)
      → ((found || b) ≡ true) ⊎ Any (Match x) ys
  spread-Match x y ys true b e r = inl refl
  spread-Match x y ys false true e r = inl refl
  spread-Match x y ys false false e (inl p) = cc
  spread-Match x y ys false false e (inr (inl q)) = cc
  spread-Match x y ys false false e (inr (inr later)) = inr later

  found_sound :
      (x : A) (ys : List A) (found : Bool)
      → found_in same x ys found ≡ some true
      → (found ≡ true) ⊎ Any (Match x) ys
  unfolding found_in
  found_sound x [] found h = inl (ground arith)
  found_sound x (y ∷ ys) found h = elim (Option-cases (same x y)) [
    | inl e ↦ absurd (ground arith)
    | inr (b, e) ↦
        collect-Match x y ys found b e (found_sound x ys (found || b) (rw (e, found_in) at h))
  ]

  found_complete :
      (x : A) (ys : List A) (found : Bool)
      → All (λ y. same x y ≢ none) ys
      → (found ≡ true) ⊎ Any (Match x) ys
      → found_in same x ys found ≡ some true
  unfolding found_in
  found_complete x [] found h (inl e) = rw e
  found_complete x [] found h (inr e) = absurd e
  found_complete x (y ∷ ys) found h e = elim (Option-cases (same x y)) [
    | inl n ↦ absurd (h.0 n)
    | inr (b, m) ↦
        rw (m, found_in) (found_complete x ys (found || b) h.1 (spread-Match x y ys found b m e))
  ]

  -- Whatever the flag holds, one comparison that panics makes the loop panic.
  found_panics :
      (x : A) (ys : List A) (found : Bool)
      → Any (λ y. same x y ≡ none) ys
      → found_in same x ys found ≡ none
  unfolding found_in
  found_panics x [] found e = absurd e
  found_panics x (y ∷ ys) found (inl e) = rw (e, found_in)
  found_panics x (y ∷ ys) found (inr later) = elim (Option-cases (same x y)) [
    | inl e ↦ rw (e, found_in)
    | inr (b, e) ↦ rw (e, found_in) (found_panics x ys (found || b) later)
  ]

  all_found_sound :
      (xs ys : List A) → all_found same xs ys ≡ some true → All (λ x. Any (Match x) ys) xs
  unfolding all_found
  all_found_sound [] ys h = tt
  all_found_sound (x ∷ xs) ys h = elim (Option-cases (found_in same x ys false)) [
    | inl e ↦ absurd (ground arith)
    | inr (false, e) ↦ absurd (ground arith)
    | inr (true, e) ↦ (
      elim (found_sound x ys false e) [ inl p ↦ cc | inr m ↦ m ],
      all_found_sound xs ys (rw (e, all_found) at h),
    )
  ]

  all_found_complete :
      (xs ys : List A)
      → All (λ x. All (λ y. same x y ≢ none) ys) xs
      → All (λ x. Any (Match x) ys) xs
      → all_found same xs ys ≡ some true
  unfolding all_found
  all_found_complete [] ys h m = refl
  all_found_complete (x ∷ xs) ys h m =
      rw (found_complete x ys false h.0 (inr m.0), all_found) (all_found_complete xs ys h.1 m.1)

  all_found_panics :
      (x : A) (xs ys : List A) → found_in same x ys false ≡ none → all_found same (x ∷ xs) ys ≡ none
  unfolding all_found
  all_found_panics x xs ys e = rw (e, all_found)

  lists_equal_asymmetric :
      (x y : A)
      → same x x ≡ some true
      → same x y ≡ some false
      → same y x ≡ some false
      → (lists_equal same (x ∷ x ∷ []) (x ∷ y ∷ []) ≡ some true)
        × (lists_equal same (x ∷ y ∷ []) (x ∷ x ∷ []) ≡ some false)
  unfolding lists_equal
  lists_equal_asymmetric x y xx xy yx = ground arith

module _ {w : Foreign} where
  abbrev pub Equal : Value w → Value w → Type 0
  Equal v o = value_equals v o ≡ some true

  -- Two updates that compare as equal have as many values, and each value on the left equals one
  -- on the right.
  pub update_equals_sound :
      (u o : Update w)
      → update_equals u o ≡ some true
      → (length u.values ≡ length o.values) × All (λ v. Any (Equal v) o.values) u.values
  unfolding update_equals
  update_equals_sound u o h = elim (Bool-cases (length u.values == length o.values)) [
    | inl e ↦ (ground arith, all_found_sound value_equals u.values o.values (rw e at h))
    | inr e ↦ absurd (ground arith)
  ]

  -- Where no comparison panics, that is all that the method asks for.
  pub update_equals_complete :
      (u o : Update w)
      → All (λ v. All (λ v'. value_equals v v' ≢ none) o.values) u.values
      → length u.values ≡ length o.values
      → All (λ v. Any (Equal v) o.values) u.values
      → update_equals u o ≡ some true
  unfolding update_equals
  update_equals_complete u o safe size h =
      rw (length_test u o size) (all_found_complete value_equals u.values o.values safe h)
    where
      length_test :
          (u o : Update w)
          → length u.values ≡ length o.values
          → (length u.values == length o.values) ≡ true
      length_test u o e = ground arith

  paths_differ : (a b : Value w) → a.path ≢ b.path → value_equals a b ≡ some false
  unfolding value_equals
  paths_differ a b h = ground (arith, eq_iff a.path b.path)

  -- The comparison is not symmetric: it passes over a value on the right that is on no left side.
  pub update_equals_asymmetric :
      (a b : Value w) (u : Update w)
      → a.path ≢ b.path
      → Equal a a
      → (update_equals (record u { values = a ∷ a ∷ [] }) (record u { values = a ∷ b ∷ [] })
          ≡ some true)
        × (update_equals (record u { values = a ∷ b ∷ [] }) (record u { values = a ∷ a ∷ [] })
            ≡ some false)
  unfolding update_equals
  update_equals_asymmetric a b u differ same =
      lists_equal_asymmetric value_equals a b same (paths_differ a b differ)
        (paths_differ b a (λ e. differ (sym e)))

  -- Two drafts under one path: comparing them is a run-time panic.
  abbrev pub IsDraftClash : Value w → Value w → Type 0
  IsDraftClash v o =
      (v.path ≡ o.path) × (d : Draft w) × (e : Draft w) × (v.value ≡ draft d) × (o.value ≡ draft e)

  clash_panics : (v o : Value w) → IsDraftClash v o → value_equals v o ≡ none
  unfolding value_equals value_equal
  clash_panics v o (p, d, e, hv, ho) = rw (hv, ho) (ground (arith, eq_iff v.path o.path))

  Any-clash :
      (v : Value w) (os : List (Value w))
      → Any (IsDraftClash v) os
      → Any (λ o. value_equals v o ≡ none) os
  Any-clash v [] c = c
  Any-clash v (o ∷ os) (inl c) = inl (clash_panics v o c)
  Any-clash v (o ∷ os) (inr later) = inr (Any-clash v os later)

  -- An update of any length whose first value is a draft panics when it is compared with an update
  -- as long that has a draft under the same path.
  pub update_equals_panics :
      (u o : Update w) (v : Value w) (rest : List (Value w))
      → u.values ≡ v ∷ rest
      → length u.values ≡ length o.values
      → Any (IsDraftClash v) o.values
      → update_equals u o ≡ none
  unfolding update_equals
  update_equals_panics u o v rest first size clash = rw (test size) (
      rw first (
        all_found_panics value_equals v rest o.values
          (found_panics value_equals v o.values false (Any-clash v o.values clash))))
    where
      test : length u.values ≡ length o.values → (length u.values == length o.values) ≡ true
      test e = ground arith
