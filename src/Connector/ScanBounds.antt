-- ===== src/Connector/ScanBounds.antt =====
-- The lines that connector/line.go puts on the stream, whatever it reads.
use gosk.Prelude.{
  ℕ, zero, suc, ◌≡◌, ◌<◌, ◌≤◌, inl, inr, false, ◌==◌, Bool-cases, List, [], ◌∷◌, ◌++◌, All,
  All-append, length, length-append, arith,
}
use gosk.Connector.Lines.{
  line_feed, carriage_return, max_token_size, drop_cr, scan_line, scan, rest_of, publish,
}

abbrev NoLineFeed : List ℕ → Type 0
NoLineFeed = All (λ c. (c == line_feed) ≡ false)

abbrev pub IsToken : List ℕ → Type 0
IsToken line = NoLineFeed line × (length line < max_token_size)

drop_cr-IsToken :
    (line : List ℕ)
    → NoLineFeed line
    → NoLineFeed (drop_cr line) × (length (drop_cr line) ≤ length line)
unfolding drop_cr
drop_cr-IsToken [] all = (tt, omega arith)
drop_cr-IsToken (c ∷ []) (here, all) = elim (Bool-cases (c == carriage_return)) [
  | inl e ↦ rw (drop_cr, e) (tt, omega arith)
  | inr e ↦ rw (drop_cr, e) ((here, tt), omega arith)
]
drop_cr-IsToken (c ∷ d ∷ line) (here, all) =
    let (later, shorter) = drop_cr-IsToken (d ∷ line) all in ((here, later), omega (arith, shorter))

kept : (line : List ℕ) → IsToken line → IsToken (drop_cr line)
kept line (all, fits) =
    let (clean, shorter) = drop_cr-IsToken line all in (clean, omega (arith, shorter, fits))

scan_line-IsToken : (line input : List ℕ) → IsToken line → All IsToken (scan_line line input).tokens
unfolding scan_line
scan_line-IsToken [] [] t = tt
scan_line-IsToken (c ∷ line) [] t = (kept (c ∷ line) t, tt)
scan_line-IsToken line (c ∷ input) (all, fits) = elim (Bool-cases (c == line_feed)) [
  | inl e ↦ rw (scan_line, e) (kept line (all, fits), scan_line-IsToken [] input (tt, omega arith))
  | inr e ↦ elim (Bool-cases (suc (length line) == max_token_size)) [
    | inl full ↦ rw (scan_line, e, full) tt
    | inr room ↦
        rw (scan_line, e, room)
          (scan_line-IsToken (line ++ c ∷ []) input (
            All-append (λ c. (c == line_feed) ≡ false) line (c ∷ []) all (e, tt),
            ground (arith, length-append line (c ∷ [])),
          ))
  ]
]

-- Whatever is read, also where a line fills the scanner's buffer and a new scanner goes on behind
-- it: each line that is put on the stream has no line feed and is shorter than the buffer.
pub publish-IsToken : (calls : ℕ) (input : List ℕ) → All IsToken (publish calls input)
unfolding publish scan
publish-IsToken zero input = tt
publish-IsToken (suc calls) input =
    All-append IsToken (scan input).tokens (publish calls (rest_of (scan input).end))
      (scan_line-IsToken [] input (tt, omega arith))
      (publish-IsToken calls (rest_of (scan input).end))
