-- ===== src/Database/MessageCacheLaws.antt =====
-- The entries of the cache of database/bigcache.go do not get older.
use mathlib.Core.Path.{subst}
use gosk.Prelude.{
  ℕ, Bool, true, false, ◌||◌, ◌≡◌, ◌≢◌, refl, sym, ap, ◌∙◌, String, str_eq, eq_iff, if◌then◌else◌,
  List, [], ◌∷◌, All, Option, none, some, inl, inr, Bool-cases, arith,
}
use gosk.Prelude.Int.{ℤ, ◌≤ℤ◌, ltb_ℤ}
use gosk.Message.Values.{Foreign}
use gosk.Message.Delta.{
  Time, Mapped, SingleValueMapped, to_single_value_mapped, merge_single, single_equals,
}
use gosk.Transfer.Messages.{append}
use gosk.Database.MessageCache.{
  set_encoded, ByteCache, CacheCodec, BigCache, key, store_change, is_skipped, change_original,
  write_found, write_singles, write_deltas, write_mapped,
}

not_before : (a b : ℤ) → ltb_ℤ a b ≡ false → b ≤ℤ a
not_before a b h = ground arith

true-ne-false : true ≢ false
true-ne-false = λ e. cc

false-ne-true : false ≢ true
false-ne-true = λ e. cc

none-ne-some : {A : Type 0} {a : A} → none ≢ some a
none-ne-some = λ e. cc

or_false : (a b : Bool) → (a || b) ≡ false → b ≡ false
or_false true b h = absurd (true-ne-false h)
or_false false b h = h

pub some_inj : {A : Type 0} {a b : A} → some a ≡ some b → a ≡ b
some_inj h = cc

-- No entry is evicted: none outlives the life window, and the size limits are not reached.
pub record Keeps (cache : ByteCache) : Type 0 where
  pub get-set :
      (state : cache.State) (put asked : String) (bytes : List ℕ)
      → cache.get (cache.set state put bytes) asked
        ≡ (if str_eq put asked then some bytes else cache.get state asked)

-- The single values that can be read back: what was encoded of them is decoded without an error, with
-- the same time, into such a value again; and two of them merge into one.
pub record Reads {w : Foreign} (codec : CacheCodec w) : Type 1 where
  pub IsReadable : SingleValueMapped w → Type 0
  pub decode-encode :
      (m : SingleValueMapped w) (bytes : List ℕ)
      → IsReadable m
      → codec.encode_single m ≡ some bytes
      → (codec.decode_single bytes).1 ≡ true
  pub same_time :
      (m : SingleValueMapped w) (bytes : List ℕ)
      → IsReadable m
      → codec.encode_single m ≡ some bytes
      → (codec.decode_single bytes).0.timestamp ≡ m.timestamp
  pub IsReadable-decode :
      (m : SingleValueMapped w) (bytes : List ℕ)
      → IsReadable m
      → codec.encode_single m ≡ some bytes
      → IsReadable (codec.decode_single bytes).0
  pub IsReadable-merge_single :
      (left right : SingleValueMapped w)
      → IsReadable left
      → IsReadable right
      → IsReadable (merge_single left right)

module _ {w : Foreign} (cache : ByteCache) (codec : CacheCodec w) where
  merge_single-time :
      (left right : SingleValueMapped w) → (merge_single left right).timestamp ≡ right.timestamp
  unfolding merge_single
  merge_single-time left right = ground arith

  merge_single-key :
      (left right : SingleValueMapped w)
      → key cache codec (merge_single left right) ≡ key cache codec right
  unfolding merge_single
  merge_single-key left right =
      ap (λ (p : String × String). append p.0 (append "." p.1)) (place left right)
    where
      place :
          (l r : SingleValueMapped w)
          → Path
              (String × String)
              ((merge_single l r).context, (merge_single l r).path)
              (r.context, r.path)
      place l r = ground arith

  -- There is an entry under the key, it can be decoded, into a value that can be read back and whose
  -- time is not before `t`.
  abbrev pub IsFrom : Reads codec → String → Time → cache.State → Type 0
  IsFrom reads k t state =
      (bytes : List ℕ) × (cache.get state k ≡ some bytes)
      × ((codec.decode_single bytes).1 ≡ true)
      × reads.IsReadable (codec.decode_single bytes).0
      × (t ≤ℤ (codec.decode_single bytes).0.timestamp)

  -- The values of these deltas that have the key can be read back.
  abbrev pub AreReadable : Reads codec → String → List (SingleValueMapped w) → Type 0
  AreReadable reads k = All (λ m. key cache codec m ≡ k → reads.IsReadable m)

  module _ (keeps : Keeps cache) (reads : Reads codec) (k : String) (t : Time) where
    -- A value that may be stored under the key.
    abbrev IsNew : SingleValueMapped w → Type 0
    IsNew m = reads.IsReadable m × (t ≤ℤ m.timestamp)

    IsFrom-set_encoded :
        (m : SingleValueMapped w) (encoded : Option (List ℕ)) (state : cache.State)
        → codec.encode_single m ≡ encoded
        → (key cache codec m ≡ k → IsNew m)
        → IsFrom reads k t state
        → IsFrom reads k t (set_encoded cache codec encoded (key cache codec m) state)
    IsFrom-set_encoded m none state e newer h = h
    IsFrom-set_encoded m (some bytes) state e newer (old, stored, decoded, readable, late) =
        elim (Bool-cases (str_eq (key cache codec m) k)) [
          | inl same ↦
              let (fresh, late') = newer ((eq_iff (key cache codec m) k).0 same) in
              (
                bytes,
                keeps.get-set state (key cache codec m) k bytes ∙ rw same refl,
                reads.decode-encode m bytes fresh e,
                reads.IsReadable-decode m bytes fresh e,
                subst (λ (time : Time). t ≤ℤ time) (sym (reads.same_time m bytes fresh e)) late',
              )
          | inr differ ↦ (
            old,
            keeps.get-set state (key cache codec m) k bytes ∙ rw differ stored,
            decoded,
            readable,
            late,
          )
        ]

    IsFrom-store_change :
        (m : SingleValueMapped w) (s : cache.State × List (SingleValueMapped w))
        → (key cache codec m ≡ k → IsNew m)
        → IsFrom reads k t s.0
        → IsFrom reads k t (store_change cache codec m s).0
    IsFrom-store_change m s newer h = IsFrom-set_encoded m (codec.encode_single m) s.0 refl newer h

    IsFrom-merged :
        (original m : SingleValueMapped w) (s : cache.State × List (SingleValueMapped w))
        → (key cache codec m ≡ k → reads.IsReadable original × IsNew m)
        → IsFrom reads k t s.0
        → IsFrom reads k t (store_change cache codec (merge_single original m) s).0
    IsFrom-merged original m s newer h =
        IsFrom-store_change (merge_single original m) s
          (λ same.
            let (old, (fresh, late)) = newer (sym (merge_single-key original m) ∙ same) in
            (
              reads.IsReadable-merge_single original m old fresh,
              subst (λ (time : Time). t ≤ℤ time) (sym (merge_single-time original m)) late,
            ))
          h

    IsFrom-change_original :
        (decoded : SingleValueMapped w × Bool) (m : SingleValueMapped w)
        (s : cache.State × List (SingleValueMapped w))
        → (key cache codec m ≡ k → reads.IsReadable m)
        → (key cache codec m ≡ k
            → (decoded.1 ≡ true) × reads.IsReadable decoded.0 × (t ≤ℤ decoded.0.timestamp))
        → IsFrom reads k t s.0
        → IsFrom reads k t (change_original cache codec decoded m s).0
    IsFrom-change_original (original, true) m s fresh here h =
        elim (Bool-cases (is_skipped cache codec original m)) [
          | inl skipped ↦ subst (λ b. IsFrom reads k t (outcome b).0) (sym skipped) h
          | inr written ↦
              subst (λ b. IsFrom reads k t (outcome b).0) (sym written)
                (IsFrom-merged original m s
                  (λ same. (
                    (here same).1,
                    (
                      fresh same,
                      later (here same).2 (
                          not_before m.timestamp original.timestamp
                            (or_false (single_equals original m) _ written)),
                    ),
                  ))
                  h)
        ]
      where
        outcome : Bool → cache.State × List (SingleValueMapped w)
        outcome b = if b then s else store_change cache codec (merge_single original m) s

        later : t ≤ℤ original.timestamp → original.timestamp ≤ℤ m.timestamp → t ≤ℤ m.timestamp
        later a b = omega arith
    IsFrom-change_original (original, false) m s fresh here h =
        IsFrom-merged original m s (λ same. absurd (false-ne-true (here same).0)) h

    IsFrom-write_found :
        (found : Option (List ℕ)) (m : SingleValueMapped w)
        (s : cache.State × List (SingleValueMapped w))
        → cache.get s.0 (key cache codec m) ≡ found
        → (key cache codec m ≡ k → reads.IsReadable m)
        → IsFrom reads k t s.0
        → IsFrom reads k t (write_found cache codec found m s).0
    IsFrom-write_found none m s e fresh (old, stored, decoded, readable, late) =
        IsFrom-store_change m s
          (λ same. absurd (none-ne-some (sym e ∙ ap (cache.get s.0) same ∙ stored)))
          (old, stored, decoded, readable, late)
    IsFrom-write_found (some bytes) m s e fresh (old, stored, decoded, readable, late) =
        IsFrom-change_original (codec.decode_single bytes) m s fresh
          (λ same.
            let it : bytes ≡ old = some_inj (sym e ∙ ap (cache.get s.0) same ∙ stored) in
            subst
              (λ (b : List ℕ).
                ((codec.decode_single b).1 ≡ true)
                × reads.IsReadable (codec.decode_single b).0
                × (t ≤ℤ (codec.decode_single b).0.timestamp))
              (sym it) (decoded, readable, late))
          (old, stored, decoded, readable, late)

    IsFrom-write_singles :
        (singles : List (SingleValueMapped w)) (s : cache.State × List (SingleValueMapped w))
        → AreReadable reads k singles
        → IsFrom reads k t s.0
        → IsFrom reads k t (write_singles cache codec singles s).0
    IsFrom-write_singles [] s all h = h
    IsFrom-write_singles (m ∷ singles) s (fresh, all) h =
        IsFrom-write_singles singles _ all
          (IsFrom-write_found (cache.get s.0 (key cache codec m)) m s refl fresh h)

    IsFrom-write_deltas :
        (mapped_list : List (Mapped w)) (s : cache.State × List (SingleValueMapped w))
        → All (λ mapped. AreReadable reads k (to_single_value_mapped mapped)) mapped_list
        → IsFrom reads k t s.0
        → IsFrom reads k t (write_deltas cache codec mapped_list s).0
    unfolding write_deltas
    IsFrom-write_deltas [] s all h = h
    IsFrom-write_deltas (mapped ∷ mapped_list) s (here, all) h =
        IsFrom-write_deltas mapped_list _ all
          (IsFrom-write_singles (to_single_value_mapped mapped) s here h)

    -- If the cache evicts nothing, and all values under a key, the one in the cache and those written,
    -- are of a kind that encoding and decoding give back with their times, and that merging stays in
    -- (booleans, which the decoder refuses, are not): the entry stays there, with its time or a later
    -- one, whatever deltas are written.
    pub IsFrom-write_mapped :
        (mapped_list : List (Mapped w)) (c : BigCache cache)
        → All (λ mapped. AreReadable reads k (to_single_value_mapped mapped)) mapped_list
        → IsFrom reads k t c.mapped_cache
        → IsFrom reads k t (write_mapped cache codec mapped_list c).0.mapped_cache
    unfolding write_mapped
    IsFrom-write_mapped mapped_list c all h =
        IsFrom-write_deltas mapped_list (c.mapped_cache, []) all h
