-- ===== src/Mapper/CsvFields.antt =====
-- mapper/csv.go, what `DoMap` calls of the packages strings and strconv, on texts as bytes:
-- `HasPrefix` with the cut behind the prefix, `Split`, and `ParseInt` in base 10 and 64 bits; and
-- `swapPointAndComma` of mapper/expressions.go, on texts in UTF-8.
use gosk.Prelude.{
  ℕ, zero, suc, ◌+◌, ◌-◌, ◌*◌, Bool, true, false, ◌==◌, ◌&&◌, ltb, leb, List, [], ◌∷◌, ◌++◌, length,
  if◌then◌else◌, Option, none, some,
}
use gosk.Prelude.Int.{ℤ, pos, sub_ℕ}

-- What stands behind a prefix, if the text has it.
unfoldable pub cut_prefix : List ℕ → List ℕ → Option (List ℕ)
cut_prefix [] s = some s
cut_prefix (p ∷ prefix) [] = none
cut_prefix (p ∷ prefix) (c ∷ s) = let rest = cut_prefix prefix s in if p == c then rest else none

abbrev is_some : {A : Type 0} → Option A → Bool
is_some none = false
is_some (some a) = true

-- With the piece so far, and the bytes of a separator that are still to be passed over.
unfoldable pub split_piece : List ℕ → List ℕ → ℕ → List ℕ → List (List ℕ)
unfolding cut_prefix
split_piece separator piece passed [] = piece ∷ []
split_piece separator piece (suc passed) (c ∷ s) = split_piece separator piece passed s
split_piece separator piece zero (c ∷ s) =
    let here = split_piece separator [] (length separator - 1) s in
    let later = split_piece separator (piece ++ c ∷ []) zero s in
    if is_some (cut_prefix separator (c ∷ s)) then piece ∷ here else later

abbrev explode : List ℕ → List (List ℕ)
explode [] = []
explode (c ∷ s) = (c ∷ []) ∷ explode s

-- An empty separator splits between the characters, here of a text in ASCII.
unfoldable pub split : List ℕ → List ℕ → List (List ℕ)
unfolding split_piece
split s [] = explode s
split s (b ∷ separator) = split_piece (b ∷ separator) [] zero s

abbrev pub swapped : ℕ → ℕ
swapped c = if c == b'.' then b',' else if c == b',' then b'.' else c

unfoldable pub swap_point_and_comma : List ℕ → List ℕ
swap_point_and_comma [] = []
swap_point_and_comma (c ∷ s) = swapped c ∷ swap_point_and_comma s

-- The value of a run of digits, with that of the digits before it.
unfoldable pub digits : ℕ → List ℕ → Option ℕ
digits n [] = some n
digits n (c ∷ s) =
    let rest = digits (n * 10 + (c - 48)) s in if leb 48 c && leb c 57 then rest else none

abbrev signed : Bool → Option ℕ → Option ℤ
signed negative none = none
signed true (some n) = if leb n 9_223_372_036_854_775_808 then some (sub_ℕ 0 n) else none
signed false (some n) = if ltb n 9_223_372_036_854_775_808 then some (pos n) else none

abbrev some_digits : List ℕ → Option ℕ
some_digits [] = none
some_digits (c ∷ s) = digits 0 (c ∷ s)

unfoldable pub parse_int : List ℕ → Option ℤ
unfolding digits
parse_int [] = none
parse_int (c ∷ s) =
    if c == b'-'
    then signed true (some_digits s)
    else if c == b'+'
    then signed false (some_digits s)
    else signed false (digits 0 (c ∷ s))
