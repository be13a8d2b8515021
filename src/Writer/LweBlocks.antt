-- ===== src/Writer/LweBlocks.antt =====
-- The text of a tag block of writer/lwe.go, described without the loop and the buffer that make it.
use mathlib.Core.List.{append_assoc, append-nil}
use gosk.Prelude.{
  ℕ, zero, suc, ◌+◌, ◌/◌, ◌%◌, ◌≤◌, ◌<◌, ltb, ◌≡◌, refl, sym, ap, ◌∙◌, Bool-cases, inl, inr, List,
  [], ◌∷◌, ◌++◌, if◌then◌else◌, arith,
}
use gosk.Prelude.Int.{pos}
use gosk.Message.RawMessage.{Raw}
use gosk.Writer.LweTagBlock.{
  LweWriter, digits_of, sprint, hex, unix, to_bytes, checksum, without_last, field_of, fields,
  sealed,
}

-- A number below 1000, in decimal.
abbrev pub decimal : ℕ → List ℕ
decimal n =
    if ltb n 10
    then (48 + n) ∷ []
    else if ltb n 100
    then (48 + n / 10) ∷ (48 + n % 10) ∷ []
    else (48 + n / 100) ∷ (48 + n / 10 % 10) ∷ (48 + n % 10) ∷ []

-- A letter, a colon and a text, unless the text is empty.
abbrev pub named : ℕ → List ℕ → List (List ℕ)
named letter [] = []
named letter (c ∷ text) = (letter ∷ b':' ∷ c ∷ text) ∷ []

-- The fields of a tag block with this line number.
abbrev pub parts : LweWriter → Raw → ℕ → List (List ℕ)
parts w r n =
    named b'd' w.destination_identification
    ++ (named b's' w.source_identification
        ++ ((if w.include_timestamp then named b'c' (sprint (unix r.timestamp)) else [])
            ++ (if w.include_line_count then named b'n' (decimal n) else [])))

abbrev pub with_commas : List ℕ → List (List ℕ) → List ℕ
with_commas p [] = p
with_commas p (q ∷ ps) = p ++ b',' ∷ with_commas q ps

-- The fields with commas between them, and their checksum, between backslashes; nothing if there is no
-- field.
abbrev pub tag_block : List (List ℕ) → List ℕ
tag_block [] = []
tag_block (p ∷ ps) =
    to_bytes
      (b'\\' ∷ (with_commas p ps ++ b'*' ∷ (hex (checksum 0 (with_commas p ps)) ++ b'\\' ∷ [])))

abbrev terminated : List (List ℕ) → List ℕ
terminated [] = []
terminated (p ∷ ps) = p ++ b',' ∷ terminated ps

terminated-append : (ps qs : List (List ℕ)) → terminated (ps ++ qs) ≡ terminated ps ++ terminated qs
terminated-append [] qs = refl
terminated-append (p ∷ ps) qs =
    ap (λ rest. p ++ b',' ∷ rest) (terminated-append ps qs)
    ∙ sym (append_assoc p (b',' ∷ terminated ps) (terminated qs))

field_of-named :
    (letter : ℕ) (text : List ℕ) → field_of letter text ≡ terminated (named letter text)
field_of-named letter [] = refl
field_of-named letter (c ∷ text) = refl

without_last-append :
    (p : List ℕ) (c : ℕ) (rest : List ℕ)
    → without_last (p ++ c ∷ rest) ≡ p ++ without_last (c ∷ rest)
without_last-append [] c rest = refl
without_last-append (x ∷ []) c rest = refl
without_last-append (x ∷ y ∷ p) c rest = ap (◌∷◌ x) (without_last-append (y ∷ p) c rest)

comma_kept :
    (q : List ℕ) (ps : List (List ℕ))
    → without_last (b',' ∷ terminated (q ∷ ps)) ≡ b',' ∷ without_last (terminated (q ∷ ps))
comma_kept [] ps = refl
comma_kept (c ∷ q) ps = refl

without_last-terminated :
    (p : List ℕ) (ps : List (List ℕ)) → without_last (terminated (p ∷ ps)) ≡ with_commas p ps
without_last-terminated p [] = without_last-append p b',' [] ∙ append-nil p
without_last-terminated p (q ∷ ps) =
    without_last-append p b',' (terminated (q ∷ ps))
    ∙ ap (◌++◌ p) (comma_kept q ps ∙ ap (◌∷◌ b',') (without_last-terminated q ps))

abbrev sealed_text : List ℕ → List ℕ
sealed_text block = to_bytes (b'\\' ∷ (block ++ b'*' ∷ (hex (checksum 0 block) ++ b'\\' ∷ [])))

sealed-terminated : (ps : List (List ℕ)) → sealed (terminated ps) ≡ tag_block ps
sealed-terminated [] = refl
sealed-terminated ([] ∷ ps) = ap sealed_text (without_last-terminated [] ps)
sealed-terminated ((c ∷ p) ∷ ps) = ap sealed_text (without_last-terminated (c ∷ p) ps)

one_digit : (fuel n : ℕ) → n < 10 → digits_of 10 fuel n ≡ (48 + n) ∷ []
one_digit zero n small = ground arith
one_digit (suc fuel) n small = ground arith

more_digits :
    (fuel n : ℕ)
    → 10 ≤ n
    → digits_of 10 (suc fuel) n ≡ digits_of 10 fuel (n / 10) ++ (48 + n % 10) ∷ []
more_digits fuel n large = ground arith

two_digits :
    (fuel n : ℕ) → 10 ≤ n → n < 100 → digits_of 10 (suc fuel) n ≡ (48 + n / 10) ∷ (48 + n % 10) ∷ []
two_digits fuel n large small =
    more_digits fuel n large
    ∙ ap (λ front. front ++ (48 + n % 10) ∷ []) (one_digit fuel (n / 10) (omega arith))

three_digits :
    (fuel n : ℕ)
    → 100 ≤ n
    → n < 1000
    → digits_of 10 (suc (suc fuel)) n ≡ (48 + n / 100) ∷ (48 + n / 10 % 10) ∷ (48 + n % 10) ∷ []
three_digits fuel n large small =
    more_digits (suc fuel) n (omega arith)
    ∙ (ap (λ front. front ++ (48 + n % 10) ∷ [])
          (two_digits fuel (n / 10) (omega arith) (omega arith))
        ∙ ap (λ d. (48 + d) ∷ (48 + n / 10 % 10) ∷ (48 + n % 10) ∷ []) hundreds)
  where
    hundreds : n / 10 / 10 ≡ n / 100
    hundreds = omega arith

decimal_one : (n : ℕ) → n < 10 → decimal n ≡ (48 + n) ∷ []
decimal_one n small = ground arith

decimal_two : (n : ℕ) → 10 ≤ n → n < 100 → decimal n ≡ (48 + n / 10) ∷ (48 + n % 10) ∷ []
decimal_two n large small = ground arith

decimal_three :
    (n : ℕ) → 100 ≤ n → decimal n ≡ (48 + n / 100) ∷ (48 + n / 10 % 10) ∷ (48 + n % 10) ∷ []
decimal_three n large = ground arith

digits_of-decimal : (fuel n : ℕ) → n < 1000 → digits_of 10 (suc (suc fuel)) n ≡ decimal n
digits_of-decimal fuel n small = elim (Bool-cases (ltb n 10)) [
  | inl few ↦
      one_digit (suc (suc fuel)) n (ground (arith, few)) ∙ sym (decimal_one n (ground (arith, few)))
  | inr many ↦ elim (Bool-cases (ltb n 100)) [
    | inl few ↦
        two_digits (suc fuel) n (ground (arith, many)) (ground (arith, few))
        ∙ sym (decimal_two n (ground (arith, many)) (ground (arith, few)))
    | inr more ↦
        three_digits fuel n (ground (arith, more)) small
        ∙ sym (decimal_three n (ground (arith, more)))
  ]
]

sprint-decimal : (n : ℕ) → n < 1000 → sprint (pos n) ≡ decimal n
unfolding sprint
sprint-decimal zero small = refl
sprint-decimal (suc zero) small = refl
sprint-decimal (suc (suc n)) small = digits_of-decimal n (suc (suc n)) small

named-if :
    (w : LweWriter) (n : ℕ)
    → n < 1000
    → field_of b'n' (if w.include_line_count then sprint (pos n) else [])
      ≡ terminated (if w.include_line_count then named b'n' (decimal n) else [])
named-if w n small = elim (Bool-cases w.include_line_count) [
  | inl i ↦ rw i (ap (field_of b'n') (sprint-decimal n small) ∙ field_of-named b'n' (decimal n))
  | inr i ↦ rw i refl
]

named-timestamp :
    (w : LweWriter) (r : Raw)
    → (if w.include_timestamp then field_of b'c' (sprint (unix r.timestamp)) else [])
      ≡ terminated (if w.include_timestamp then named b'c' (sprint (unix r.timestamp)) else [])
named-timestamp w r = elim (Bool-cases w.include_timestamp) [
  | inl i ↦ rw i (field_of-named b'c' (sprint (unix r.timestamp)))
  | inr i ↦ rw i refl
]

fields-parts :
    (w : LweWriter) (r : Raw) (n : ℕ)
    → n < 1000
    → fields w r (if w.include_line_count then sprint (pos n) else []) ≡ terminated (parts w r n)
fields-parts w r n small =
    let lines = if w.include_line_count then named b'n' (decimal n) else [] in
    let times = if w.include_timestamp then named b'c' (sprint (unix r.timestamp)) else [] in
    let sources = named b's' w.source_identification in
    rw
      (
        field_of-named b'd' w.destination_identification,
        field_of-named b's' w.source_identification,
        named-timestamp w r,
        named-if w n small,
      )
      (sym (
        terminated-append (named b'd' w.destination_identification) (sources ++ (times ++ lines))
        ∙ ap (◌++◌ (terminated (named b'd' w.destination_identification))) (
            terminated-append sources (times ++ lines)
            ∙ ap (◌++◌ (terminated sources)) (terminated-append times lines))))

-- What `createTagBlock` returns for a line number below 1000.
pub sealed-parts :
    (w : LweWriter) (r : Raw) (n : ℕ)
    → n < 1000
    → sealed (fields w r (if w.include_line_count then sprint (pos n) else []))
      ≡ tag_block (parts w r n)
sealed-parts w r n small = ap sealed (fields-parts w r n small) ∙ sealed-terminated (parts w r n)
