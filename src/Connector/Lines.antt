-- ===== src/Connector/Lines.antt =====
-- connector/line.go, `Publish`, `receive` and `scan`: the lines that are read from a connection. The
-- scanner of the package bufio, with its split function for lines, is written out: its buffer grows
-- to 65536 bytes, and a line that fills it is an error.
use gosk.Prelude.{ℕ, zero, suc, ◌==◌, true, false, List, [], ◌∷◌, ◌++◌, length}

abbrev pub line_feed : ℕ
line_feed = 10

abbrev pub carriage_return : ℕ
carriage_return = 13

abbrev pub max_token_size : ℕ
max_token_size = 65536

-- `dropCR`: a carriage return at the end of a line goes.
unfoldable pub drop_cr : List ℕ → List ℕ
drop_cr [] = []
drop_cr (c ∷ []) = elim (c == carriage_return) [ true ↦ [] | false ↦ c ∷ [] ]
drop_cr (c ∷ d ∷ line) = c ∷ drop_cr (d ∷ line)

-- How a scan ends: at the end of the input, or with `ErrTooLong`, with the bytes that were not read.
pub data End : Type 0 where
  eof : End
  too_long : List ℕ → End

-- The lines that a scan gives, and its end.
pub record Scanned : Type 0 where
  pub tokens : List (List ℕ)
  pub end : End

abbrev pub last_token : List ℕ → List (List ℕ)
last_token [] = []
last_token (c ∷ line) = drop_cr (c ∷ line) ∷ []

abbrev pub before : List ℕ → Scanned → Scanned
before token s = record s { tokens = token ∷ s.tokens }

-- With the bytes of the current line that are in the buffer.
unfoldable pub scan_line : List ℕ → List ℕ → Scanned
unfolding drop_cr
scan_line line [] = record { tokens = last_token line; end = eof }
scan_line line (c ∷ input) = elim (c == line_feed) [
  | true ↦ before (drop_cr line) (scan_line [] input)
  | false ↦ elim (suc (length line) == max_token_size) [
    | true ↦ record { tokens = []; end = too_long input }
    | false ↦ scan_line (line ++ c ∷ []) input
  ]
]

-- `scan` and `receive`: a new scanner for what is left of the input.
unfoldable pub scan : List ℕ → Scanned
unfolding scan_line
scan input = scan_line [] input

abbrev pub rest_of : End → List ℕ
rest_of eof = []
rest_of (too_long rest) = rest

-- The loop of `Publish`: what the first calls of `receive` put on the stream. A call at the end of
-- the input returns at once, and so do all later ones.
unfoldable pub publish : ℕ → List ℕ → List (List ℕ)
unfolding scan
publish zero input = []
publish (suc calls) input = let s = scan input in s.tokens ++ publish calls (rest_of s.end)
