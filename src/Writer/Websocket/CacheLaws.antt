-- ===== src/Writer/Websocket/CacheLaws.antt =====
-- The cache of writer/websocket.go holds the last value that each path of each context was given.
use gosk.Prelude.{
  ◌≡◌, refl, ap, sym, ◌∙◌, inl, inr, Bool-cases, Option-cases, String, str_eq, eq_iff, List, [],
  ◌∷◌, ◌++◌, if◌then◌else◌, Option, some, ◌&&◌,
}
use gosk.Prelude.Assoc.{Assoc, lookup, insert, lookup-insert}
use gosk.Message.Values.{Foreign}
use gosk.Message.Delta.{
  Value, Update, Mapped, SingleValueMapped, of_update, of_updates, to_single_value_mapped,
  to_update,
}
use gosk.Writer.Websocket.Cache.{
  Deltas, Cache, content_of, deltas_of, value_delta, put_value, put_values, put_updates,
  make_context, inject_or_update,
}

module _ {w : Foreign} where
  abbrev pub cached : Assoc (Deltas w) → String → String → Option (Mapped w)
  cached content context path = lookup path (deltas_of (lookup context content))

  -- A single value as a delta of its own, with no origin.
  abbrev pub alone : SingleValueMapped w → Mapped w
  alone s = record { context = s.context; origin = ""; updates = to_update s ∷ [] }

  -- The last single value with the context and path, or what was there before.
  abbrev pub last_or :
      String → String → List (SingleValueMapped w) → Option (Mapped w) → Option (Mapped w)
  last_or context path [] old = old
  last_or context path (s ∷ singles) old =
      last_or context path singles
        (if str_eq s.context context && str_eq s.path path then some (alone s) else old)

  last_or-append :
      (c p : String) (xs ys : List (SingleValueMapped w)) (old : Option (Mapped w))
      → last_or c p (xs ++ ys) old ≡ last_or c p ys (last_or c p xs old)
  last_or-append c p [] ys old = refl
  last_or-append c p (x ∷ xs) ys old = last_or-append c p xs ys _

  cached-put_value :
      (context c p : String) (u : Update w) (v : Value w) (content : Assoc (Deltas w))
      → cached (put_value context u v content) c p ≡ (
          if str_eq context c && str_eq v.path p
          then some (value_delta context u v)
          else cached content c p)
  unfolding put_value
  cached-put_value context c p u v content =
      rw
        (lookup-insert context c
          (insert v.path (value_delta context u v) (deltas_of (lookup context content))) content)
        (elim (Bool-cases (str_eq context c)) [
          | inl e ↦
              rw
                (
                  e,
                  lookup-insert v.path p (value_delta context u v)
                      (deltas_of (lookup context content)),
                )
                (rw ((eq_iff context c).0 e) refl)
          | inr e ↦ rw e refl
        ])

  cached-put_values :
      (context o c p : String) (u : Update w) (values : List (Value w)) (content : Assoc (Deltas w))
      → cached (put_values context u values content) c p
        ≡ last_or c p (of_update context o u values) (cached content c p)
  unfolding put_values
  cached-put_values context o c p u [] content = refl
  cached-put_values context o c p u (v ∷ values) content =
      cached-put_values context o c p u values (put_value context u v content)
      ∙ ap (last_or c p (of_update context o u values)) (cached-put_value context c p u v content)

  cached-put_updates :
      (context o c p : String) (updates : List (Update w)) (content : Assoc (Deltas w))
      → cached (put_updates context updates content) c p
        ≡ last_or c p (of_updates context o updates) (cached content c p)
  unfolding put_updates
  cached-put_updates context o c p [] content = refl
  cached-put_updates context o c p (u ∷ updates) content =
      cached-put_updates context o c p updates (put_values context u u.values content)
      ∙ ap (last_or c p (of_updates context o updates))
          (cached-put_values context o c p u u.values content)
      ∙ sym (last_or-append c p (of_update context o u u.values) (of_updates context o updates) _)

  cached-make_context :
      (context c p : String) (content : Assoc (Deltas w))
      → cached (make_context context content) c p ≡ cached content c p
  unfolding make_context lookup
  cached-make_context context c p content = elim (Option-cases (lookup context content)) [
    | inl e ↦
        rw (e, make_context, lookup-insert context c [] content)
          (elim (Bool-cases (str_eq context c)) [
            | inl q ↦ rw q (rw (← (eq_iff context c).0 q, e) refl)
            | inr q ↦ rw q refl
          ])
    | inr (deltas, e) ↦ rw (e, make_context) refl
  ]

  -- After a delta the cache holds, for each context and path, the last single value of the delta
  -- with that context and path, and otherwise what it held before.
  pub cached-inject_or_update :
      (cache : Cache w) (m : Mapped w) (c p : String)
      → cached (content_of (inject_or_update cache m)) c p
        ≡ last_or c p (to_single_value_mapped m) (cached (content_of cache) c p)
  unfolding inject_or_update to_single_value_mapped
  cached-inject_or_update cache m c p =
      cached-put_updates m.context m.origin c p m.updates
        (make_context m.context (content_of cache))
      ∙ ap (last_or c p (of_updates m.context m.origin m.updates))
          (cached-make_context m.context c p (content_of cache))
