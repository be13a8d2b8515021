-- ===== src/Connector/LinesLaws.antt =====
-- The scanner of connector/line.go on values that were written as lines.
use mathlib.Core.List.{append_assoc, append-nil}
use gosk.Prelude.{
  ℕ, suc, ◌≡◌, ◌<◌, ◌+◌, refl, sym, ap, ◌∙◌, false, ◌==◌, List, [], ◌∷◌, ◌++◌, All, length,
  length-append, arith,
}
use gosk.Connector.Lines.{
  line_feed, carriage_return, max_token_size, drop_cr, eof, before, scan_line, scan,
}
use gosk.Connector.LineWriter.{framed}
use gosk.Connector.ProcessLaws.{frames}

-- A value without a line feed that fits into the scanner's buffer with the end of its line.
abbrev pub IsLine : List ℕ → Type 0
IsLine value = All (λ c. (c == line_feed) ≡ false) value × (suc (length value) < max_token_size)

abbrev pub flatten : List (List ℕ) → List ℕ
flatten [] = []
flatten (part ∷ parts) = part ++ flatten parts

drop_cr-snoc : (line : List ℕ) → drop_cr (line ++ carriage_return ∷ []) ≡ line
unfolding drop_cr
drop_cr-snoc [] = refl
drop_cr-snoc (c ∷ []) = refl
drop_cr-snoc (c ∷ d ∷ line) = ap (◌∷◌ c) (drop_cr-snoc (d ∷ line))

scan_line_step :
    (line input : List ℕ) (c : ℕ)
    → (c == line_feed) ≡ false
    → suc (length line) < max_token_size
    → scan_line line (c ∷ input) ≡ scan_line (line ++ c ∷ []) input
unfolding scan_line
scan_line_step line input c other fits =
    let below : (suc (length line) == max_token_size) ≡ false = ground arith in
    rw (scan_line, other, below) refl

scan_line-framed :
    (line value input : List ℕ)
    → All (λ c. (c == line_feed) ≡ false) value
    → length line + suc (length value) < max_token_size
    → scan_line line (framed value ++ input) ≡ before (line ++ value) (scan_line [] input)
scan_line-framed line [] input all fits =
    scan_line_step line (line_feed ∷ input) carriage_return refl (omega (arith, fits))
    ∙ unfold scan_line in
      ap (λ token. before token (scan_line [] input)) (drop_cr-snoc line ∙ sym (append-nil line))
scan_line-framed line (c ∷ value) input (here, all) fits =
    scan_line_step line (framed value ++ input) c here (omega (arith, fits))
    ∙ (scan_line-framed (line ++ c ∷ []) value input all
          (omega (arith, fits, length-append line (c ∷ [])))
        ∙ ap (λ token. before token (scan_line [] input)) (append_assoc line (c ∷ []) value))

-- The lines are what was written, in order, and the scan ends at the end of the input.
pub scan-frames :
    (values : List (List ℕ))
    → All IsLine values
    → scan (flatten (frames values)) ≡ record { tokens = values; end = eof }
unfolding scan
scan-frames [] all = unfold scan_line in refl
scan-frames (value ∷ values) ((one_line, fits), all) =
    scan_line-framed [] value (flatten (frames values)) one_line (omega (arith, fits))
    ∙ ap (before value) (scan-frames values all)
