-- ===== src/Writer/Websocket/Cache.antt =====
-- writer/websocket.go, `Cache`: for each context and path a delta with the newest value alone.
use gosk.Prelude.{String, List, [], ◌∷◌, ◌++◌, Option, none, some}
use gosk.Prelude.Assoc.{Assoc, lookup, insert}
use gosk.Message.Values.{Foreign}
use gosk.Message.Delta.{Value, Update, Mapped}

abbrev pub Deltas : Foreign → Type 0
Deltas w = Assoc (Mapped w)

-- The field `content`; a nil map is `none`.
abbrev pub Cache : Foreign → Type 0
Cache w = Option (Assoc (Deltas w))

module _ {w : Foreign} where
  abbrev pub content_of : Cache w → Assoc (Deltas w)
  content_of none = []
  content_of (some content) = content

  abbrev pub deltas_of : Option (Deltas w) → Deltas w
  deltas_of none = []
  deltas_of (some deltas) = deltas

  -- The delta that is stored for one value. The literal of the source leaves `Origin` empty.
  abbrev pub value_delta : String → Update w → Value w → Mapped w
  value_delta context u v = record {
    context = context;
    origin = "";
    updates = record { source = u.source; timestamp = u.timestamp; values = v ∷ [] } ∷ [];
  }

  unfoldable pub put_value : String → Update w → Value w → Assoc (Deltas w) → Assoc (Deltas w)
  put_value context u v content =
      insert context (insert v.path (value_delta context u v) (deltas_of (lookup context content)))
        content

  unfoldable pub put_values :
      String → Update w → List (Value w) → Assoc (Deltas w) → Assoc (Deltas w)
  unfolding put_value
  put_values context u [] content = content
  put_values context u (v ∷ values) content =
      put_values context u values (put_value context u v content)

  unfoldable pub put_updates : String → List (Update w) → Assoc (Deltas w) → Assoc (Deltas w)
  unfolding put_values
  put_updates context [] content = content
  put_updates context (u ∷ updates) content =
      put_updates context updates (put_values context u u.values content)

  -- `if _, ok := c.content[m.Context]; !ok { ... }`
  unfoldable pub make_context : String → Assoc (Deltas w) → Assoc (Deltas w)
  make_context context content = elim (lookup context content) [
    | none ↦ insert context [] content
    | some deltas ↦ content
  ]

  unfoldable pub inject_or_update : Cache w → Mapped w → Cache w
  inject_or_update cache m =
      some (put_updates m.context m.updates (make_context m.context (content_of cache)))

  abbrev pub all_deltas : Deltas w → List (Mapped w)
  all_deltas [] = []
  all_deltas ((path, m) ∷ deltas) = m ∷ all_deltas deltas

  abbrev pub all_contexts : Assoc (Deltas w) → List (Mapped w)
  all_contexts [] = []
  all_contexts ((context, deltas) ∷ content) = all_deltas deltas ++ all_contexts content

  -- The order of a Go map is not fixed: here it is that of the list.
  unfoldable pub retrieve_all : Cache w → List (Mapped w)
  retrieve_all cache = all_contexts (content_of cache)
