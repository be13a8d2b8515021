-- ===== src/Writer/LweNumbers.antt =====
-- The numbers of the lines that writer/lwe.go sends.
use gosk.Prelude.{
  ℕ, suc, ◌%◌, ◌<◌, codes, ◌≡◌, refl, ap, sym, ◌∙◌, Bool, Bool-cases, Option-cases, true, false,
  inl, inr, List, [], ◌∷◌, ◌++◌, some, none, if◌then◌else◌, arith,
}
use gosk.Prelude.Int.{pos}
use gosk.Message.RawMessage.{Raw}
use gosk.Writer.Lwe.{UdpAddr, destination}
use gosk.Writer.LweTagBlock.{
  LweWriter, Datagram, fields, sealed, sprint, line_number, create_tag_block, multicast, write_raw,
}
use gosk.Writer.LweBlocks.{tag_block, parts, sealed-parts}

-- The datagram of a message with this line number: "UdPbC", a zero, the tag block, the sentence, and
-- the end of the line.
abbrev pub datagram : LweWriter → ℕ → UdpAddr → Raw → Datagram
datagram w n a r = record {
  to = a;
  payload = codes "UdPbC" ++ 0 ∷ (tag_block (parts w r n) ++ (r.value ++ b'\r' ∷ b'\n' ∷ []));
}

abbrev pub numbered : (UdpAddr → Bool) → LweWriter → ℕ → List Raw → List Datagram
numbered can_dial w k [] = []
numbered can_dial w k (r ∷ raws) = elim (destination r) [
  | none ↦ numbered can_dial w k raws
  | some a ↦
      if can_dial a
      then datagram w (k % 1000) a r ∷ numbered can_dial w (suc k) raws
      else numbered can_dial w k raws
]

next_number : (k : ℕ) → line_number (suc (k % 1000)) ≡ suc k % 1000
next_number k = ground arith

below_thousand : (k : ℕ) → k % 1000 < 1000
below_thousand k = omega arith

no_true : true ≡ false → ⊥
no_true h = cc

abbrev at_line : LweWriter → ℕ → LweWriter
at_line w count = record w { line_count = count }

abbrev line_text : LweWriter → ℕ → List ℕ
line_text w n = if w.include_line_count then sprint (pos n) else []

-- What a tag block numbers, and how it counts on.
create_tag_block-counted :
    (w : LweWriter) (r : Raw) (count n : ℕ)
    → w.include_line_count ≡ true
    → line_number count ≡ n
    → create_tag_block (at_line w count) r
      ≡ (sealed (fields w r (line_text w n)), at_line w (suc n))
unfolding create_tag_block
create_tag_block-counted w r count n i e = rw (i, create_tag_block) (rw e refl)

create_tag_block-uncounted :
    (w : LweWriter) (r : Raw) (count n : ℕ)
    → w.include_line_count ≡ false
    → create_tag_block (at_line w count) r ≡ (sealed (fields w r (line_text w n)), at_line w count)
unfolding create_tag_block
create_tag_block-uncounted w r count n i = rw (i, create_tag_block) refl

sealed_block :
    (w : LweWriter) (r : Raw) (n : ℕ) (w' : LweWriter) (made : List ℕ × LweWriter)
    → n < 1000
    → made ≡ (sealed (fields w r (line_text w n)), w')
    → made ≡ (tag_block (parts w r n), w')
sealed_block w r n w' made small e = e ∙ ap (λ block. (block, w')) (sealed-parts w r n small)

module _ (can_dial : UdpAddr → Bool) (w : LweWriter) where
  abbrev IsAt : ℕ → ℕ → Type 0
  IsAt k count = w.include_line_count ≡ true → line_number count ≡ k % 1000

  write_raw-at :
      (raws : List Raw) (k count : ℕ)
      → IsAt k count
      → write_raw can_dial (at_line w count) raws ≡ numbered can_dial w k raws
  unfolding write_raw multicast
  write_raw-at [] k count e = refl
  write_raw-at (r ∷ raws) k count e = elim (Option-cases (destination r)) [
    | inl d ↦ rw (d, write_raw, multicast, numbered) (write_raw-at raws k count e)
    | inr (a, d) ↦ elim (Bool-cases (can_dial a)) [
      | inl open_now ↦
          rw (d, open_now, write_raw, multicast, numbered)
            (elim (Bool-cases w.include_line_count) [
              | inl i ↦
                  let made =
                    sealed_block w r (k % 1000) _ _ (below_thousand k)
                      (create_tag_block-counted w r count (k % 1000) i (e i)) in
                  rw made (
                    ap (λ sent. datagram w (k % 1000) a r ∷ sent)
                      (write_raw-at raws (suc k) (suc (k % 1000)) (λ _. next_number k)))
              | inr i ↦
                  let made =
                    sealed_block w r (k % 1000) _ _ (below_thousand k)
                      (create_tag_block-uncounted w r count (k % 1000) i) in
                  rw made (
                    ap (λ sent. datagram w (k % 1000) a r ∷ sent)
                      (write_raw-at raws (suc k) count (λ y. absurd (no_true (sym y ∙ i)))))
            ])
      | inr closed ↦ rw (d, closed, write_raw, multicast, numbered) (write_raw-at raws k count e)
    ]
  ]

  -- A new writer sends, of the messages whose talker has a group that can be reached, one datagram
  -- each, numbered in the order in which the messages come to the lock: to the address of the group,
  -- with "UdPbC", a zero, the tag block, the sentence of the message and the end of a line. The tag
  -- block has the identifications that are set, the seconds of the message and the line number, as far
  -- as they are configured, between commas, and their checksum; it is empty without any of them. The
  -- k-th datagram from 0 on has the line number k % 1000.
  pub write_raw-numbered :
      (raws : List Raw) → w.line_count ≡ 0 → write_raw can_dial w raws ≡ numbered can_dial w 0 raws
  write_raw-numbered raws new =
      ap (λ count. write_raw can_dial (at_line w count) raws) new
      ∙ write_raw-at raws 0 0 (λ _. refl)
