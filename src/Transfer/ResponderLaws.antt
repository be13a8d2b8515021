-- ===== src/Transfer/ResponderLaws.antt =====
-- What an origin sends again, transfer/respond.go.
use gosk.Prelude.{
  ◌+◌, ◌==◌, ==_iff, ◌≡◌, refl, ap, sym, ◌∙◌, Bool-cases, inl, inr, List, [], ◌∷◌, ◌++◌, length,
  All, Option, some, none, if◌then◌else◌, Option-cases, arith,
}
use gosk.Prelude.Int.{ℤ, leb_ℤ}
use gosk.Prelude.Table.{find, remove, find-remove}
use mathlib.Core.List.{append_assoc, append-nil}
use gosk.Prelude.{map, All-append, length-append, String}
use gosk.Message.Values.{Foreign}
use gosk.Message.Delta.{Uuid, Time, Update, Mapped}
use gosk.Database.Queries.{select_count_per_uuid}
use gosk.Database.MappedRows.{read_mapped}
use gosk.Transfer.Messages.{RequestMessage, Bytes}
use gosk.Transfer.Responder.{
  Outside, World, remove_complete, mark, uuids_of, send_delta, send_deltas, inject_data,
  respond_with_data, with_transfer, on_deltas, on_local_counts,
}

-- What is left of a local count, if the receiver has that count: nothing, if it has as many.
abbrev pub lacking : Option ℤ → Option ℤ → Option ℤ
lacking none here = here
lacking (some there) none = none
lacking (some there) (some here) = if leb_ℤ here there then none else some here

-- Each identifier has one count, as in a Go map.
abbrev pub Distinct : List (Uuid × ℤ) → Type 0
Distinct [] = Unit
Distinct ((uuid, count) ∷ counts) = (find ◌==◌ uuid counts ≡ none) × Distinct counts

abbrev without_complete : Uuid → ℤ → List (Uuid × ℤ) → List (Uuid × ℤ)
without_complete uuid count counts = elim (find ◌==◌ uuid counts) [
  | none ↦ counts
  | some here ↦ if leb_ℤ here count then remove ◌==◌ uuid counts else counts
]

find-without_complete :
    (uuid asked : Uuid) (count : ℤ) (counts : List (Uuid × ℤ))
    → find ◌==◌ asked (without_complete uuid count counts) ≡ (
        if uuid == asked
        then lacking (some count) (find ◌==◌ asked counts)
        else find ◌==◌ asked counts)
find-without_complete uuid asked count counts =
    ground (arith, find-remove ◌==◌ ==_iff uuid asked counts)

-- Of the counts of the origin, those remain of identifiers of which the receiver has no count or a
-- smaller one.
pub find-remove_complete :
    (remote local : List (Uuid × ℤ)) (uuid : Uuid)
    → Distinct remote
    → find ◌==◌ uuid (remove_complete remote local)
      ≡ lacking (find ◌==◌ uuid remote) (find ◌==◌ uuid local)
unfolding remove_complete find
find-remove_complete [] local uuid d = refl
find-remove_complete ((first, count) ∷ remote) local uuid (new, d) =
    find-remove_complete remote (without_complete first count local) uuid d
    ∙ ap (lacking (find ◌==◌ uuid remote)) (find-without_complete first uuid count local)
    ∙ elim (Bool-cases (first == uuid)) [
      | inl e ↦
          let gone : find ◌==◌ uuid remote ≡ none = rw (← (==_iff first uuid).0 e) new in
          rw (e, gone) refl
      | inr e ↦ rw e refl
    ]

module _ {w : Foreign} (x : Outside w) (own_origin : String) where
  -- An encoding of a delta, each update of which names the transfer.
  abbrev pub IsMarked : Uuid → Bytes → Type 0
  IsMarked uuid bytes =
      (delta : Mapped w) × (x.delta_json.marshal delta ≡ some bytes)
      × All (λ u. u.source.transfer_uuid ≡ uuid) delta.updates

  marked-All :
      (uuid : Uuid) (updates : List (Update w))
      → All (λ u. u.source.transfer_uuid ≡ uuid) (map (with_transfer uuid) updates)
  marked-All uuid [] = tt
  marked-All uuid (u ∷ updates) = (refl, marked-All uuid updates)

  -- What a part of the responder adds to the deltas on the bus, all of them marked and counted.
  abbrev pub Adds : Uuid → World x → World x → Type 0
  Adds uuid s s' =
      (out : List Bytes) × (s'.sent ≡ s.sent ++ out)
      × (s'.records_transmitted ≡ s.records_transmitted + length out)
      × All (IsMarked uuid) out

  Adds-none : (uuid : Uuid) (s : World x) → Adds uuid s s
  Adds-none uuid s = ([], sym (append-nil s.sent), omega arith, tt)

  Adds-trans : (uuid : Uuid) (r s t : World x) → Adds uuid r s → Adds uuid s t → Adds uuid r t
  Adds-trans uuid r s t (first, e, n, m) (second, e', n', m') = (
    first ++ second,
    e' ∙ ap (λ l. l ++ second) e ∙ append_assoc r.sent first second,
    omega (arith, length-append {0} first second),
    All-append (IsMarked uuid) first second m m',
  )

  send_delta-Adds :
      (uuid : Uuid) (delta : Mapped w) (s : World x)
      → Adds uuid s (send_delta x own_origin uuid delta s)
  unfolding send_delta
  send_delta-Adds uuid delta s = elim (Option-cases (x.delta_json.marshal (mark uuid delta))) [
    | inl e ↦ rw (e, send_delta) (Adds-none uuid s)
    | inr (bytes, e) ↦ elim (Bool-cases (x.is_refused s.sends)) [
      | inl r ↦ rw (e, r, send_delta) (Adds-none uuid s)
      | inr r ↦
          rw (e, r, send_delta)
            (
              bytes ∷ [],
              refl,
              omega arith,
              ((mark uuid delta, e, marked-All uuid delta.updates), tt),
            )
    ]
  ]

  send_deltas-Adds :
      (uuid : Uuid) (deltas : List (Mapped w)) (s : World x)
      → Adds uuid s (send_deltas x own_origin uuid deltas s)
  unfolding send_deltas
  send_deltas-Adds uuid [] s = Adds-none uuid s
  send_deltas-Adds uuid (d ∷ deltas) s =
      Adds-trans uuid s (send_delta x own_origin uuid d s)
        (send_deltas x own_origin uuid deltas (send_delta x own_origin uuid d s))
        (send_delta-Adds uuid d s) (send_deltas-Adds uuid deltas (send_delta x own_origin uuid d s))

  on_deltas-Adds :
      (uuid : Uuid) (r : Option (List (Mapped w)) × x.connection.State) (s : World x)
      → Adds uuid s (on_deltas x own_origin uuid r s)
  unfolding on_deltas
  on_deltas-Adds uuid (none, db) s = Adds-none uuid s
  on_deltas-Adds uuid (some deltas, db) s = send_deltas-Adds uuid deltas (record s { db = db })

  inject_data-Adds :
      (counts : List (Uuid × ℤ)) (uuid : Uuid) (period : Time) (s : World x)
      → Adds uuid s (inject_data x own_origin counts uuid period s)
  unfolding inject_data
  inject_data-Adds counts uuid period s =
      on_deltas-Adds uuid
        (read_mapped x.connection x.mapstructure
          (x.connection.mapped_of_uuids (uuids_of counts) period) s.db)
        s

  on_local_counts-Adds :
      (request : RequestMessage) (r : Option (List (Uuid × ℤ)) × x.connection.State) (s : World x)
      → Adds request.uuid s (on_local_counts x own_origin request r s)
  unfolding on_local_counts
  on_local_counts-Adds request (none, db) s = Adds-none request.uuid s
  on_local_counts-Adds request (some local, db) s =
      inject_data-Adds (remove_complete request.counts_per_uuid local) request.uuid
        request.period_start (record s { db = db })

  -- Whatever the database answers, which deltas cannot be encoded and which the bus refuses, the answer
  -- to a data request only adds deltas to those on the bus; each update of an added delta names the
  -- identifier of the request as its transfer, and the counter of transmitted records goes up by the
  -- number of added deltas.
  pub respond_with_data-Adds :
      (request : RequestMessage) (s : World x)
      → Adds request.uuid s (respond_with_data x own_origin request s)
  unfolding respond_with_data
  respond_with_data-Adds request s =
      on_local_counts-Adds request
        (select_count_per_uuid x.connection own_origin request.period_start s.db) s
