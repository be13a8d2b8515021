-- ===== src/Writer/Websocket/Subscriptions.antt =====
-- writer/websocket.go, the subscriptions of a `Client`: a map of contexts to sets of paths, both of
-- which may be patterns. A nil map is `none`.
use gosk.Prelude.{
  Bool, false, ◌&&◌, ◌||◌, String, str_eq, List, [], ◌∷◌, if◌then◌else◌, Option, none, some, codes,
}
use gosk.Prelude.Assoc.{Assoc, lookup, insert, update_all}
use gosk.Message.Values.{Foreign}
use gosk.Message.Delta.{Value, Update, Mapped}
use gosk.Writer.Websocket.Pattern.{is_pattern_match}

-- `map[string]struct{}`
abbrev pub Paths : Type 0
Paths = Assoc (Unit {0})

abbrev pub Subscriptions : Type 0
Subscriptions = Assoc Paths

-- `subscribe` and `unsubscribe` are lists of sections, each of which holds one path.
pub record SubscribeMessage : Type 0 where
  pub context : String
  pub subscribe : List String
  pub unsubscribe : List String

pub record Client : Type 0 where
  pub subscriptions : Option Subscriptions
  pub self : String

-- A pattern match on texts: `isPatternMatch([]rune(subject), []rune(pattern))`.
unfoldable pub matches : String → String → Bool
matches subject pattern = is_pattern_match (codes subject) (codes pattern)

abbrev pub made : Option Subscriptions → Subscriptions
made none = []
made (some s) = s

abbrev pub paths_of : Option Paths → Paths
paths_of none = []
paths_of (some paths) = paths

-- One round of the first loop: the set of the context is made if it is missing.
unfoldable pub subscribe_path : String → String → Subscriptions → Subscriptions
subscribe_path context path s = insert context (insert path tt (paths_of (lookup context s))) s

unfoldable pub subscribe_all : String → List String → Subscriptions → Subscriptions
subscribe_all context [] s = s
subscribe_all context (path ∷ rest) s = subscribe_all context rest (subscribe_path context path s)

-- The inner loop of an unsubscription, over the paths of one context.
unfoldable pub remove_paths : String → Paths → Paths
remove_paths pattern = update_all (λ path u. if matches path pattern then none else some u)

-- A context with no path left is deleted, whether it matched or not.
abbrev pub unless_empty : Paths → Option Paths
unless_empty [] = none
unless_empty (p ∷ paths) = some (p ∷ paths)

unfoldable pub unsubscribe_path : String → String → Subscriptions → Subscriptions
unsubscribe_path context pattern = update_all (λ subscribed paths.
    unless_empty (if matches subscribed context then remove_paths pattern paths else paths))

unfoldable pub unsubscribe_all : String → List String → Subscriptions → Subscriptions
unsubscribe_all context [] s = s
unsubscribe_all context (pattern ∷ rest) s =
    unsubscribe_all context rest (unsubscribe_path context pattern s)

unfoldable pub message_context : Client → SubscribeMessage → String
message_context c m = if str_eq m.context "vessels.self" then c.self else m.context

unfoldable pub handle_subscribe_messages : Client → SubscribeMessage → Client
unfolding message_context
handle_subscribe_messages c m =
    let context = message_context c m in
    record c {
      subscriptions = some (
          unsubscribe_all context m.unsubscribe
            (subscribe_all context m.subscribe (made c.subscriptions)));
    }

module _ {w : Foreign} where
  abbrev pub any_value : String → List (Value w) → Bool
  any_value path [] = false
  any_value path (v ∷ values) = matches v.path path || any_value path values

  abbrev pub any_update : String → List (Update w) → Bool
  any_update path [] = false
  any_update path (u ∷ updates) = any_value path u.values || any_update path updates

  abbrev pub any_path : Paths → List (Update w) → Bool
  any_path [] updates = false
  any_path ((path, u) ∷ paths) updates = any_update path updates || any_path paths updates

  abbrev pub any_context : Subscriptions → Mapped w → Bool
  any_context [] m = false
  any_context ((context, paths) ∷ s) m =
      (matches m.context context && any_path paths m.updates) || any_context s m

  unfoldable pub is_subscribed_to : Client → Mapped w → Bool
  is_subscribed_to c m = elim c.subscriptions [ none ↦ false | some s ↦ any_context s m ]
