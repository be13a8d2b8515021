-- ===== src/Writer/LweTagBlock.antt =====
-- writer/lwe.go, `createTagBlock` and `multicast`: a sentence is sent behind a tag block, which numbers
-- the lines and has a checksum.
use Prim.Native.Nat.{bit_xor}
use gosk.Prelude.{
  ℕ, zero, suc, ◌+◌, ◌/◌, ◌%◌, ltb, leb, Bool, List, [], ◌∷◌, ◌++◌, Option, none, some,
  if◌then◌else◌, codes,
}
use gosk.Prelude.Int.{ℤ, pos, negsuc}
use gosk.Message.RawMessage.{Raw}
use gosk.Writer.Lwe.{UdpAddr, destination}

-- A text is the list of its code points. `line_count` is a uint32.
pub record LweWriter : Type 0 where
  pub destination_identification : List ℕ
  pub source_identification : List ℕ
  pub include_timestamp : Bool
  pub include_line_count : Bool
  pub line_count : ℕ

-- A digit in bases up to 16, in capitals.
abbrev pub digit : ℕ → ℕ
digit d = if ltb d 10 then b'0' + d else 55 + d

-- The digits of a number; each round divides it by a base of at least 2, so as much fuel as the number
-- is enough.
abbrev pub digits_of : ℕ → ℕ → ℕ → List ℕ
digits_of base zero n = digit n ∷ []
digits_of base (suc fuel) n =
    let front = digits_of base fuel (n / base) in
    if ltb n base then digit n ∷ [] else front ++ digit (n % base) ∷ []

-- `fmt.Sprint` of an integer.
unfoldable pub sprint : ℤ → List ℕ
sprint (pos n) = digits_of 10 n n
sprint (negsuc n) = b'-' ∷ digits_of 10 (suc n) (suc n)

-- `fmt.Sprintf("%02X", n)`
unfoldable pub hex : ℕ → List ℕ
hex n = if ltb n 16 then b'0' ∷ digit n ∷ [] else digits_of 16 n n

-- `Timestamp.Unix()`: whole seconds, rounded down.
abbrev pub unix : ℤ → ℤ
unix (pos n) = pos (n / 1_000_000_000)
unix (negsuc n) = negsuc (n / 1_000_000_000)

-- `[]byte(text)`: the bytes of UTF-8.
abbrev pub utf8 : ℕ → List ℕ
utf8 c =
    if ltb c 128
    then c ∷ []
    else if ltb c 2048
    then (192 + c / 64) ∷ (128 + c % 64) ∷ []
    else if ltb c 65536
    then (224 + c / 4096) ∷ (128 + c / 64 % 64) ∷ (128 + c % 64) ∷ []
    else (240 + c / 262144) ∷ (128 + c / 4096 % 64) ∷ (128 + c / 64 % 64) ∷ (128 + c % 64) ∷ []

abbrev pub to_bytes : List ℕ → List ℕ
to_bytes [] = []
to_bytes (c ∷ text) = utf8 c ++ to_bytes text

-- The loop over the code points of the tag block.
unfoldable pub checksum : ℕ → List ℕ → ℕ
checksum sum [] = sum
checksum sum (c ∷ text) = checksum (bit_xor sum c) text

abbrev pub without_last : List ℕ → List ℕ
without_last [] = []
without_last (c ∷ []) = []
without_last (c ∷ d ∷ text) = c ∷ without_last (d ∷ text)

-- An identification with its letter and a comma, unless it is empty.
abbrev pub field_of : ℕ → List ℕ → List ℕ
field_of letter [] = []
field_of letter (c ∷ text) = letter ∷ b':' ∷ ((c ∷ text) ++ b',' ∷ [])

-- The fields with a comma behind each; `line` is the text of the line count.
abbrev pub fields : LweWriter → Raw → List ℕ → List ℕ
fields w r line =
    field_of b'd' w.destination_identification
    ++ (field_of b's' w.source_identification
        ++ ((if w.include_timestamp then field_of b'c' (sprint (unix r.timestamp)) else [])
            ++ field_of b'n' line))

-- The end of `createTagBlock`: the last comma goes, and the checksum comes.
abbrev pub sealed : List ℕ → List ℕ
sealed [] = []
sealed (c ∷ text) =
    let block = without_last (c ∷ text) in
    to_bytes (b'\\' ∷ (block ++ b'*' ∷ (hex (checksum 0 block) ++ b'\\' ∷ [])))

-- The number of the next line: `lineCount`, which starts again at 1000.
abbrev pub line_number : ℕ → ℕ
line_number count = if leb 1000 count then 0 else count

unfoldable pub create_tag_block : LweWriter → Raw → List ℕ × LweWriter
unfolding sprint hex checksum
create_tag_block w r =
    if w.include_line_count
    then (
      sealed (fields w r (sprint (pos (line_number w.line_count)))),
      record w { line_count = suc (line_number w.line_count) },
    )
    else (sealed (fields w r []), w)

-- What `conn.Write` is given, and where the connection goes.
pub record Datagram : Type 0 where
  pub to : UdpAddr
  pub payload : List ℕ

-- "UdPbC\x00", the tag block, the sentence and the end of the line.
abbrev pub payload_of : List ℕ → Raw → List ℕ
payload_of tag_block r = codes "UdPbC" ++ 0 ∷ (tag_block ++ (r.value ++ b'\r' ∷ b'\n' ∷ []))

abbrev pub sent_to : UdpAddr → Raw → List ℕ × LweWriter → Option Datagram × LweWriter
sent_to a r (tag_block, w) = (some (record { to = a; payload = payload_of tag_block r }), w)

-- `net.DialUDP` is the parameter `can_dial`.
unfoldable pub multicast : (UdpAddr → Bool) → LweWriter → Raw → Option Datagram × LweWriter
unfolding create_tag_block
multicast can_dial w r = elim (destination r) [
  | none ↦ (none, w)
  | some a ↦ if can_dial a then sent_to a r (create_tag_block w r) else (none, w)
]

abbrev sent_before : Option Datagram → List Datagram → List Datagram
sent_before none sent = sent
sent_before (some d) sent = d ∷ sent

-- `WriteRaw`, in the order in which the goroutines of the messages come to the lock, which is held
-- while a line is counted. Each writes to its connection behind the lock, so that the datagrams of two
-- messages can be sent in the other order; here they stand in the order of their line numbers.
unfoldable pub write_raw : (UdpAddr → Bool) → LweWriter → List Raw → List Datagram
unfolding multicast
write_raw can_dial w [] = []
write_raw can_dial w (r ∷ raws) =
    let (d, w') = multicast can_dial w r in sent_before d (write_raw can_dial w' raws)
