-- ===== src/Writer/Websocket/Pattern.antt =====
-- writer/websocket.go, `isPatternMatch`: texts as lists of code points, `*` for any run of them.
use gosk.Prelude.{ℕ, Bool, true, false, ◌==◌, List, [], ◌∷◌, if◌then◌else◌}

abbrev pub star : ℕ
star = b'*'

-- `deepMatch`, with its loop as recursion: a star matches nothing, or the first code point and
-- itself again.
unfoldable pub deep_match : List ℕ → List ℕ → Bool
deep_match [] [] = true
deep_match (c ∷ subject) [] = false
deep_match [] (p ∷ pattern) = if p == star then deep_match [] pattern else false
deep_match (c ∷ subject) (p ∷ pattern) = elim (p == star) [
  | true ↦ elim (deep_match (c ∷ subject) pattern) [
    | true ↦ true
    | false ↦ deep_match subject (p ∷ pattern)
  ]
  | false ↦ elim (c == p) [ true ↦ deep_match subject pattern | false ↦ false ]
]

unfoldable pub is_pattern_match : List ℕ → List ℕ → Bool
unfolding deep_match
is_pattern_match subject [] = elim subject [ [] ↦ true | c ∷ rest ↦ false ]
is_pattern_match subject (p ∷ []) = if p == star then true else deep_match subject (p ∷ [])
is_pattern_match subject (p ∷ q ∷ pattern) = deep_match subject (p ∷ q ∷ pattern)
