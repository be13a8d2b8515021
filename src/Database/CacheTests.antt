-- ===== src/Database/CacheTests.antt =====
-- The theorem about database/bigcache.go at a cache of a few speeds.
use mathlib.Core.Path.{subst}
use gosk.Prelude.{
  ℕ, zero, suc, ◌≡◌, refl, sym, ap, ◌∙◌, str_eq, eq_iff, Bool, true, false, List, Option, [], ◌∷◌,
  some, none, arith,
}
use gosk.Prelude.Int.{ℤ, pos, negsuc}
use gosk.Prelude.Assoc.{Assoc, lookup, insert, lookup-insert}
use gosk.Message.Values.{GoValue, int64, boolean}
use gosk.Message.Delta.{SingleValueMapped, Mapped, new_source, merge_single, to_single_value_mapped}
use gosk.Message.Samples.{sample, speed, depth, update, delta_of}
use gosk.Database.MessageCache.{ByteCache, CacheCodec, BigCache, write_mapped}
use gosk.Database.MessageCacheLaws.{some_inj, Keeps, Reads, IsFrom, IsFrom-write_mapped}

abbrev entries_of : Assoc (List ℕ) → List (Option (List ℕ))
entries_of [] = []
entries_of ((k, bytes) ∷ rest) = some bytes ∷ entries_of rest

abbrev table : ByteCache
table = record {
  State = Assoc (List ℕ);
  get = λ state k. lookup k state;
  set = λ state k bytes. insert k bytes state;
  entries = entries_of;
}

table-Keeps : Keeps table
table-Keeps = record { get-set = λ state put asked bytes. lookup-insert put asked bytes state }

-- Two numbers for the time, and one for the value. Other values than whole numbers are written in a
-- way that cannot be read.
abbrev encode : ℤ → ℕ → List ℕ
encode (pos n) v = 0 ∷ n ∷ v ∷ []
encode (negsuc n) v = 1 ∷ n ∷ v ∷ []

abbrev speed_at : ℤ → ℕ → SingleValueMapped sample
speed_at time v = record {
  context = "ship";
  origin = "ship";
  source = new_source;
  timestamp = time;
  path = "navigation.speed";
  value = int64 (pos v);
}

abbrev decode : List ℕ → SingleValueMapped sample × Bool
decode (zero ∷ n ∷ v ∷ []) = (speed_at (pos n) v, true)
decode (suc zero ∷ n ∷ v ∷ []) = (speed_at (negsuc n) v, true)
decode bytes = (speed_at (pos 0) 0, false)

abbrev encode_value : ℤ → GoValue sample → List ℕ
encode_value time (int64 (pos n)) = encode time n
encode_value time _ = 2 ∷ []

abbrev codec : CacheCodec sample
codec = record {
  encode_raw = λ raw. none;
  decode_raw = λ bytes. none;
  encode_single = λ m. some (encode_value m.timestamp m.value);
  decode_single = decode;
  uuid_text = λ uuid. "";
  parse_uuid = λ text. none;
}

abbrev IsNumber : SingleValueMapped sample → Type 0
IsNumber m = (n : ℕ) × (m.value ≡ int64 (pos n))

-- What is read back.
abbrev IsRead : ℤ → List ℕ → Type 0
IsRead time bytes =
    ((decode bytes).1 ≡ true) × ((decode bytes).0.timestamp ≡ time) × IsNumber (decode bytes).0

encode-IsRead : (time : ℤ) (v : ℕ) → IsRead time (encode time v)
encode-IsRead (pos n) v = (refl, refl, (v, refl))
encode-IsRead (negsuc n) v = (refl, refl, (v, refl))

encode_value-IsRead :
    (m : SingleValueMapped sample) (bytes : List ℕ)
    → IsNumber m
    → codec.encode_single m ≡ some bytes
    → IsRead m.timestamp bytes
encode_value-IsRead m bytes (n, is_number) e =
    subst (IsRead m.timestamp) (sym (ap (encode_value m.timestamp) is_number) ∙ some_inj e)
      (encode-IsRead m.timestamp n)

merge_single-IsNumber :
    (left right : SingleValueMapped sample)
    → IsNumber left
    → IsNumber right
    → IsNumber (merge_single left right)
unfolding merge_single gosk.Message.Merger.as_merger
merge_single-IsNumber left right (m, e) (n, e') = (n, rw (e, merge_single) e')

codec-Reads : Reads codec
codec-Reads = record {
  IsReadable = IsNumber;
  decode-encode = λ m bytes readable e. (encode_value-IsRead m bytes readable e).0;
  same_time = λ m bytes readable e. (encode_value-IsRead m bytes readable e).1;
  IsReadable-decode = λ m bytes readable e. (encode_value-IsRead m bytes readable e).2;
  IsReadable-merge_single = merge_single-IsNumber;
}

abbrev filled : BigCache table
filled = record { raw_cache = []; mapped_cache = ("ship.navigation.speed", encode (pos 4) 3) ∷ [] }

-- The second delta is older than the first, and is skipped; the value of the depth cannot be read back.
abbrev deltas : List (Mapped sample)
deltas =
    delta_of (update (speed 7 ∷ record (depth 2) { value = boolean true } ∷ []) ∷ [])
    ∷ delta_of (record (update (speed 9 ∷ [])) { timestamp = pos 2 } ∷ [])
    ∷ []

other_key : str_eq "ship.environment.depth" "ship.navigation.speed" ≡ true → ⊥
other_key h = cc

IsFrom-write_mapped_example :
    IsFrom table codec codec-Reads "ship.navigation.speed"
      (pos 4)
      (write_mapped table codec deltas filled).0.mapped_cache
unfolding lookup codec-Reads to_single_value_mapped
IsFrom-write_mapped_example =
    IsFrom-write_mapped table codec table-Keeps codec-Reads "ship.navigation.speed" (pos 4) deltas
      filled
      (
        (
          λ e. (7, refl),
          (
            λ e. absurd (other_key ((eq_iff "ship.environment.depth" "ship.navigation.speed").1 e)),
            tt,
          ),
        ),
        ((λ e. (9, refl), tt), tt),
      )
      (encode (pos 4) 3, refl, refl, (3, refl), omega arith)
