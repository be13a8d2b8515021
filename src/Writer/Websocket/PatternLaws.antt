-- ===== src/Writer/Websocket/PatternLaws.antt =====
-- `isPatternMatch` decides what a pattern means: it is read from left to right, a star stands for
-- any text, and any other code point for itself.
use mathlib.Core.List.{append-nil}
use gosk.Prelude.{
  ℕ, ◌≡◌, ◌≢◌, ◌↔◌, ◌⊎◌, inl, inr, refl, ap, sym, true, ◌==◌, ==_iff, Bool-cases, List, [], ◌∷◌,
  ◌++◌, arith,
}
use gosk.Writer.Websocket.Pattern.{star, deep_match, is_pattern_match}

abbrev pub Matches : List ℕ → List ℕ → Type 0
Matches subject [] = subject ≡ []
Matches subject (p ∷ pattern) =
    ((p ≡ star) × (run : List ℕ) × (rest : List ℕ) × (subject ≡ run ++ rest) × Matches rest pattern)
    ⊎ ((p ≢ star) × (rest : List ℕ) × (subject ≡ p ∷ rest) × Matches rest pattern)

sound : (subject pattern : List ℕ) → deep_match subject pattern ≡ true → Matches subject pattern
unfolding deep_match
sound [] [] h = refl
sound (c ∷ subject) [] h = cc
sound [] (p ∷ pattern) h = elim (Bool-cases (p == star)) [
  | inl e ↦ inl ((==_iff p star).0 e, [], [], refl, sound [] pattern (rw e at h))
  | inr e ↦ absurd (ground arith)
]
sound (c ∷ subject) (p ∷ pattern) h = elim (Bool-cases (p == star)) [
  | inl e ↦ elim (Bool-cases (deep_match (c ∷ subject) pattern)) [
    | inl m ↦ inl ((==_iff p star).0 e, [], c ∷ subject, refl, sound (c ∷ subject) pattern m)
    | inr m ↦ elim (sound subject (p ∷ pattern) (rw (e, m, deep_match) at h)) [
      | inl (s, run, rest, split, later) ↦ inl (s, c ∷ run, rest, ap (◌∷◌ c) split, later)
      | inr (n, _, _, _) ↦ absurd (n ((==_iff p star).0 e))
    ]
  ]
  | inr e ↦ elim (Bool-cases (c == p)) [
    | inl q ↦
        inr
          (ground arith, subject, ground arith, sound subject pattern (rw (e, q, deep_match) at h))
    | inr q ↦ absurd (ground arith)
  ]
]

star_here :
    (p : ℕ) (subject pattern : List ℕ)
    → (p == star) ≡ true
    → deep_match subject pattern ≡ true
    → deep_match subject (p ∷ pattern) ≡ true
unfolding deep_match
star_here p [] pattern e h = rw e h
star_here p (c ∷ subject) pattern e h = rw (e, h, deep_match) refl

star_step :
    (p c : ℕ) (subject pattern : List ℕ)
    → (p == star) ≡ true
    → deep_match subject (p ∷ pattern) ≡ true
    → deep_match (c ∷ subject) (p ∷ pattern) ≡ true
unfolding deep_match
star_step p c subject pattern e h = elim (Bool-cases (deep_match (c ∷ subject) pattern)) [
  | inl m ↦ star_here p (c ∷ subject) pattern e m
  | inr m ↦ rw (e, m, deep_match) h
]

star_run :
    (p : ℕ) (run rest pattern : List ℕ)
    → (p == star) ≡ true
    → deep_match rest pattern ≡ true
    → deep_match (run ++ rest) (p ∷ pattern) ≡ true
star_run p [] rest pattern e h = star_here p rest pattern e h
star_run p (c ∷ run) rest pattern e h =
    star_step p c (run ++ rest) pattern e (star_run p run rest pattern e h)

plain_step :
    (p : ℕ) (rest pattern : List ℕ)
    → p ≢ star
    → deep_match rest pattern ≡ true
    → deep_match (p ∷ rest) (p ∷ pattern) ≡ true
unfolding deep_match
plain_step p rest pattern n h = ground (arith, ==_iff p star)

complete : (subject pattern : List ℕ) → Matches subject pattern → deep_match subject pattern ≡ true
complete subject [] e = rw e (unfold deep_match in refl)
complete subject (p ∷ pattern) (inl (s, run, rest, split, m)) =
    rw split (star_run p run rest pattern ((==_iff p star).1 s) (complete rest pattern m))
complete subject (p ∷ pattern) (inr (n, rest, split, m)) =
    rw split (plain_step p rest pattern n (complete rest pattern m))

-- The two tests before the loop change nothing.
pub is_pattern_match-deep_match :
    (subject pattern : List ℕ) → is_pattern_match subject pattern ≡ deep_match subject pattern
unfolding is_pattern_match
is_pattern_match-deep_match [] [] = refl
is_pattern_match-deep_match (c ∷ subject) [] = refl
is_pattern_match-deep_match subject (p ∷ []) = elim (Bool-cases (p == star)) [
  | inl e ↦ rw e (
      sym (
        complete subject (p ∷ [])
          (inl ((==_iff p star).0 e, subject, [], sym (append-nil subject), refl))))
  | inr e ↦ rw e refl
]
is_pattern_match-deep_match subject (p ∷ q ∷ pattern) = refl

-- A subject matches a pattern exactly when it can be cut into what the pattern's code points stand
-- for.
pub is_pattern_match_iff :
    (subject pattern : List ℕ) → (is_pattern_match subject pattern ≡ true) ↔ Matches subject pattern
is_pattern_match_iff subject pattern = (
  λ h. sound subject pattern (rw is_pattern_match-deep_match at h),
  λ m. rw is_pattern_match-deep_match (complete subject pattern m),
)
