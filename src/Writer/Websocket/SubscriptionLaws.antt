-- ===== src/Writer/Websocket/SubscriptionLaws.antt =====
-- What a client is subscribed to after a message of writer/websocket.go, and which deltas that lets
-- through.
use gosk.Prelude.{
  ◌≡◌, inl, inr, refl, ap, ◌∙◌, Bool, true, false, not, ◌&&◌, ◌||◌, Bool-cases, String, str_eq,
  eq_iff, List, [], ◌∷◌, if◌then◌else◌, Option, none, some, arith,
}
use gosk.Prelude.Assoc.{
  lookup, insert, update_all, Distinct, lookup-insert, insert-Distinct, lookup-update_all,
  update_all-Distinct, mapped,
}
use gosk.Writer.Websocket.Subscriptions.{
  Paths, Subscriptions, SubscribeMessage, Client, matches, made, paths_of, subscribe_path,
  subscribe_all, remove_paths, unless_empty, unsubscribe_path, unsubscribe_all, message_context,
  handle_subscribe_messages,
}

abbrev pub is_there : {A : Type 0} → Option A → Bool
is_there none = false
is_there (some a) = true

-- Whether a client has subscribed to a path under a context.
abbrev pub has : Subscriptions → String → String → Bool
has s context path = is_there (lookup path (paths_of (lookup context s)))

pub record IsWellFormed (s : Subscriptions) : Type 0 where
  pub contexts : Distinct s
  pub paths : (context : String) → Distinct (paths_of (lookup context s))

has-subscribe_path :
    (context path c p : String) (s : Subscriptions)
    → has (subscribe_path context path s) c p ≡ (str_eq context c && str_eq path p) || has s c p
unfolding subscribe_path
has-subscribe_path context path c p s =
    rw (lookup-insert context c (insert path tt (paths_of (lookup context s))) s)
      (elim (Bool-cases (str_eq context c)) [
        | inl e ↦
            rw (e, lookup-insert path p tt (paths_of (lookup context s)))
              (rw ((eq_iff context c).0 e) (ground arith))
        | inr e ↦ rw e refl
      ])

subscribe_path-IsWellFormed :
    (context path : String) (s : Subscriptions)
    → IsWellFormed s
    → IsWellFormed (subscribe_path context path s)
unfolding subscribe_path
subscribe_path-IsWellFormed context path s h = record {
  contexts = insert-Distinct context _ s h.contexts;
  paths = λ c.
      rw (lookup-insert context c (insert path tt (paths_of (lookup context s))) s)
        (elim (Bool-cases (str_eq context c)) [
          | inl e ↦ rw e (insert-Distinct path tt _ (h.paths context))
          | inr e ↦ rw e (h.paths c)
        ]);
}

paths_of-unless_empty : (paths : Paths) → paths_of (unless_empty paths) ≡ paths
paths_of-unless_empty [] = refl
paths_of-unless_empty (p ∷ paths) = refl

abbrev left_over : String → String → String → Paths → Paths
left_over context pattern c paths = if matches c context then remove_paths pattern paths else paths

has-remove_paths :
    (pattern p : String) (paths : Paths)
    → Distinct paths
    → is_there (lookup p (remove_paths pattern paths))
      ≡ is_there (lookup p paths) && not (matches p pattern)
unfolding remove_paths
has-remove_paths pattern p paths d =
    ap is_there (lookup-update_all _ p paths d) ∙ settle (lookup p paths)
  where
    settle :
        (o : Option (Unit {0}))
        → is_there (mapped (λ q u. if matches q pattern then none else some u) p o)
          ≡ is_there o && not (matches p pattern)
    settle none = refl
    settle (some u) = ground arith

remove_paths-Distinct :
    (pattern : String) (paths : Paths) → Distinct paths → Distinct (remove_paths pattern paths)
unfolding remove_paths
remove_paths-Distinct pattern paths d = update_all-Distinct _ paths d

-- The set of a context after one unsubscription.
paths-unsubscribe_path :
    (context pattern c : String) (s : Subscriptions)
    → IsWellFormed s
    → paths_of (lookup c (unsubscribe_path context pattern s))
      ≡ left_over context pattern c (paths_of (lookup c s))
unfolding unsubscribe_path
paths-unsubscribe_path context pattern c s h =
    ap paths_of (lookup-update_all _ c s h.contexts) ∙ settle (lookup c s)
  where
    settle :
        (o : Option Paths)
        → paths_of (mapped (λ q paths. unless_empty (left_over context pattern q paths)) c o)
          ≡ left_over context pattern c (paths_of o)
    settle none = unfold remove_paths update_all in ground arith
    settle (some paths) = paths_of-unless_empty _

has-unsubscribe_path :
    (context pattern c p : String) (s : Subscriptions)
    → IsWellFormed s
    → has (unsubscribe_path context pattern s) c p
      ≡ has s c p && not (matches c context && matches p pattern)
has-unsubscribe_path context pattern c p s h =
    rw (paths-unsubscribe_path context pattern c s h) (elim (Bool-cases (matches c context)) [
      | inl e ↦ rw (e, has-remove_paths pattern p _ (h.paths c)) refl
      | inr e ↦ rw e (ground arith)
    ])

unsubscribe_path-IsWellFormed :
    (context pattern : String) (s : Subscriptions)
    → IsWellFormed s
    → IsWellFormed (unsubscribe_path context pattern s)
unsubscribe_path-IsWellFormed context pattern s h = record {
  contexts = unfold unsubscribe_path in update_all-Distinct _ s h.contexts;
  paths = λ c.
      rw (paths-unsubscribe_path context pattern c s h) (elim (Bool-cases (matches c context)) [
        | inl e ↦ rw e (remove_paths-Distinct pattern _ (h.paths c))
        | inr e ↦ rw e (h.paths c)
      ]);
}

abbrev pub listed : String → List String → Bool
listed p [] = false
listed p (path ∷ rest) = str_eq path p || listed p rest

abbrev pub excluded : String → List String → Bool
excluded p [] = false
excluded p (pattern ∷ rest) = matches p pattern || excluded p rest

has-subscribe_all :
    (context : String) (paths : List String) (c p : String) (s : Subscriptions)
    → has (subscribe_all context paths s) c p ≡ (str_eq context c && listed p paths) || has s c p
unfolding subscribe_all
has-subscribe_all context [] c p s = ground arith
has-subscribe_all context (path ∷ rest) c p s =
    has-subscribe_all context rest c p (subscribe_path context path s)
    ∙ rw (has-subscribe_path context path c p s) (ground arith)

subscribe_all-IsWellFormed :
    (context : String) (paths : List String) (s : Subscriptions)
    → IsWellFormed s
    → IsWellFormed (subscribe_all context paths s)
unfolding subscribe_all
subscribe_all-IsWellFormed context [] s h = h
subscribe_all-IsWellFormed context (path ∷ rest) s h =
    subscribe_all-IsWellFormed context rest _ (subscribe_path-IsWellFormed context path s h)

has-unsubscribe_all :
    (context : String) (patterns : List String) (c p : String) (s : Subscriptions)
    → IsWellFormed s
    → has (unsubscribe_all context patterns s) c p
      ≡ has s c p && not (matches c context && excluded p patterns)
unfolding unsubscribe_all
has-unsubscribe_all context [] c p s h = ground arith
has-unsubscribe_all context (pattern ∷ rest) c p s h =
    has-unsubscribe_all context rest c p (unsubscribe_path context pattern s)
      (unsubscribe_path-IsWellFormed context pattern s h)
    ∙ rw (has-unsubscribe_path context pattern c p s h) (ground arith)

unsubscribe_all-IsWellFormed :
    (context : String) (patterns : List String) (s : Subscriptions)
    → IsWellFormed s
    → IsWellFormed (unsubscribe_all context patterns s)
unfolding unsubscribe_all
unsubscribe_all-IsWellFormed context [] s h = h
unsubscribe_all-IsWellFormed context (pattern ∷ rest) s h =
    unsubscribe_all-IsWellFormed context rest _ (unsubscribe_path-IsWellFormed context pattern s h)

abbrev pub subscribed : Client → Subscriptions
subscribed c = made c.subscriptions

-- After a message a client has a path under a context exactly if it was subscribed to it, before or
-- by the message, and no pattern that the message unsubscribes matches both.
pub has-handle_subscribe_messages :
    (client : Client) (m : SubscribeMessage) (c p : String)
    → IsWellFormed (subscribed client)
    → has (subscribed (handle_subscribe_messages client m)) c p
      ≡ ((str_eq (message_context client m) c && listed p m.subscribe)
          || has (subscribed client) c p)
        && not (matches c (message_context client m) && excluded p m.unsubscribe)
unfolding handle_subscribe_messages
has-handle_subscribe_messages client m c p h =
    let context = message_context client m in
    has-unsubscribe_all context m.unsubscribe c p
      (subscribe_all context m.subscribe (subscribed client))
      (subscribe_all-IsWellFormed context m.subscribe (subscribed client) h)
    ∙ ap (λ b. b && not (matches c context && excluded p m.unsubscribe))
        (has-subscribe_all context m.subscribe c p (subscribed client))

-- The maps stay maps: no context and no path stands twice.
pub handle_subscribe_messages-IsWellFormed :
    (client : Client) (m : SubscribeMessage)
    → IsWellFormed (subscribed client)
    → IsWellFormed (subscribed (handle_subscribe_messages client m))
unfolding handle_subscribe_messages
handle_subscribe_messages-IsWellFormed client m h =
    let context = message_context client m in
    unsubscribe_all-IsWellFormed context m.unsubscribe _
      (subscribe_all-IsWellFormed context m.subscribe (subscribed client) h)
