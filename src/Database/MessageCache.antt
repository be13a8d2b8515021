-- ===== src/Database/MessageCache.antt =====
-- database/bigcache.go: raw messages under their identifiers, and single values under their contexts
-- and paths, in two caches (github.com/allegro/bigcache) that are the parameter `ByteCache`.
use gosk.Prelude.{
  ℕ, Bool, true, false, ◌||◌, if◌then◌else◌, String, str_eq, List, [], ◌∷◌, ◌++◌, Option, none,
  some,
}
use gosk.Prelude.Int.{ltb_ℤ}
use gosk.Message.Values.{Foreign}
use gosk.Message.RawMessage.{Raw}
use gosk.Message.Delta.{
  Uuid, Mapped, SingleValueMapped, to_single_value_mapped, to_mapped, single_equals, merge_single,
}
use gosk.Transfer.Messages.{append}

-- A cache of bytes under texts. `get` is `none` for a missing key; `entries` are what an iterator gives
-- one by one, `none` for an error.
pub record ByteCache : Type 1 where
  pub State : Type 0
  pub get : State → String → Option (List ℕ)
  pub set : State → String → List ℕ → State
  pub entries : State → List (Option (List ℕ))

-- The package encoding/json on the two kinds of messages, and the texts of identifiers. A single value
-- is decoded into a variable: what that then holds, and whether there was no error.
pub record CacheCodec (w : Foreign) : Type 0 where
  pub encode_raw : Raw → Option (List ℕ)
  pub decode_raw : List ℕ → Option Raw
  pub encode_single : SingleValueMapped w → Option (List ℕ)
  pub decode_single : List ℕ → SingleValueMapped w × Bool
  pub uuid_text : Uuid → String
  pub parse_uuid : String → Option Uuid

module _ (cache : ByteCache) where
  pub record BigCache : Type 0 where
    pub raw_cache : cache.State
    pub mapped_cache : cache.State

  -- The loops of `ReadRaw` and `ReadMapped` over the iterator: the first entry that cannot be read ends
  -- them with an error. An iterator that fails gives an empty entry.
  abbrev or_empty : Option (List ℕ) → List ℕ
  or_empty none = []
  or_empty (some bytes) = bytes

  unfoldable pub read_entries :
      {A : Type 0} → (List ℕ → Option A) → List (Option (List ℕ)) → List A → Option (List A)
  read_entries read [] result = some result
  read_entries read (entry ∷ entries) result = elim (read (or_empty entry)) [
    | none ↦ none
    | some a ↦ read_entries read entries (result ++ a ∷ [])
  ]

  module _ {w : Foreign} (codec : CacheCodec w) where
    unfoldable pub write_raw : Raw → Bool → BigCache → BigCache × List Raw
    write_raw raw return_changes c = elim (codec.encode_raw raw) [
      | none ↦ (c, [])
      | some bytes ↦ (
        record c { raw_cache = cache.set c.raw_cache (codec.uuid_text raw.uuid) bytes },
        if return_changes then raw ∷ [] else [],
      )
    ]

    abbrev pub key : SingleValueMapped w → String
    key m = append m.context (append "." m.path)

    abbrev pub set_encoded : Option (List ℕ) → String → cache.State → cache.State
    set_encoded none k state = state
    set_encoded (some bytes) k state = cache.set state k bytes

    -- The end of the inner loop of `WriteMapped`, on the cache of mapped data and the changes.
    abbrev pub store_change :
        SingleValueMapped w
        → cache.State × List (SingleValueMapped w)
        → cache.State × List (SingleValueMapped w)
    store_change m (state, changes) =
        (set_encoded (codec.encode_single m) (key m) state, changes ++ m ∷ [])

    abbrev pub is_skipped : SingleValueMapped w → SingleValueMapped w → Bool
    is_skipped original m = single_equals original m || ltb_ℤ m.timestamp original.timestamp

    abbrev pub change_original :
        SingleValueMapped w × Bool
        → SingleValueMapped w
        → cache.State × List (SingleValueMapped w)
        → cache.State × List (SingleValueMapped w)
    change_original (original, true) m s =
        if is_skipped original m then s else store_change (merge_single original m) s
    change_original (original, false) m s = store_change (merge_single original m) s

    abbrev pub write_found :
        Option (List ℕ)
        → SingleValueMapped w
        → cache.State × List (SingleValueMapped w)
        → cache.State × List (SingleValueMapped w)
    write_found none m s = store_change m s
    write_found (some bytes) m s = change_original (codec.decode_single bytes) m s

    abbrev pub write_singles :
        List (SingleValueMapped w)
        → cache.State × List (SingleValueMapped w)
        → cache.State × List (SingleValueMapped w)
    write_singles [] s = s
    write_singles (m ∷ singles) s = write_singles singles (write_found (cache.get s.0 (key m)) m s)

    unfoldable pub write_deltas :
        List (Mapped w)
        → cache.State × List (SingleValueMapped w)
        → cache.State × List (SingleValueMapped w)
    write_deltas [] s = s
    write_deltas (mapped ∷ mapped_list) s =
        write_deltas mapped_list (write_singles (to_single_value_mapped mapped) s)

    abbrev pub to_deltas : List (SingleValueMapped w) → List (Mapped w)
    to_deltas [] = []
    to_deltas (c ∷ changes) = to_mapped c ∷ to_deltas changes

    unfoldable pub write_mapped : List (Mapped w) → BigCache → BigCache × List (Mapped w)
    unfolding write_deltas
    write_mapped mapped_list c =
        let written = write_deltas mapped_list (c.mapped_cache, []) in
        (record c { mapped_cache = written.0 }, to_deltas written.1)

    -- `none` is an error.
    unfoldable pub read_raw : String → BigCache → Option (List Raw)
    unfolding read_entries
    read_raw condition c = elim (codec.parse_uuid condition) [
      | some uuid ↦ elim (cache.get c.raw_cache (codec.uuid_text uuid)) [
        | none ↦ none
        | some bytes ↦ elim (codec.decode_raw bytes) [ none ↦ none | some raw ↦ some (raw ∷ []) ]
      ]
      | none ↦
          if str_eq condition ""
          then read_entries codec.decode_raw (cache.entries c.raw_cache) []
          else none
    ]

    abbrev pub if_decoded : SingleValueMapped w × Bool → Option (Mapped w)
    if_decoded (m, true) = some (to_mapped m)
    if_decoded (m, false) = none

    unfoldable pub read_mapped : BigCache → Option (List (Mapped w))
    unfolding read_entries
    read_mapped c =
        read_entries (λ bytes. if_decoded (codec.decode_single bytes))
          (cache.entries c.mapped_cache) []
