-- ===== src/Writer/Websocket/FirstSubscription.antt =====
-- What a client of writer/websocket.go is sent before it has written anything: the query parameter
-- `subscribe` of its request decides.
use gosk.Prelude.{
  ◌≡◌, refl, inl, inr, Bool, true, false, ◌&&◌, ◌||◌, Bool-cases, String, str_eq, List, [], ◌∷◌,
  if◌then◌else◌, arith,
}
use gosk.Prelude.Assoc.{lookup, insert}
use gosk.Message.Values.{Foreign}
use gosk.Message.Delta.{Value, Update, Mapped}
use gosk.Writer.Websocket.Pattern.{is_pattern_match}
use gosk.Writer.Websocket.Subscriptions.{
  matches, subscribe_path, subscribe_all, unsubscribe_all, message_context,
  handle_subscribe_messages, is_subscribed_to, any_value, any_update,
}
use gosk.Writer.Websocket.Serve.{new_client, all_paths, serve_ws}

-- The context that a request with the parameter subscribes to. The client has no name of its own,
-- so "vessels.self" stands for the empty text.
abbrev pub first_context : String → String → String
first_context self parameter =
    if str_eq parameter "all" then "*" else if str_eq self "vessels.self" then "" else self

module _ {w : Foreign} where
  abbrev pub is_nonempty : List (Value w) → Bool
  is_nonempty [] = false
  is_nonempty (v ∷ values) = true

  -- Whether a delta holds any value at all.
  abbrev pub has_values : List (Update w) → Bool
  has_values [] = false
  has_values (u ∷ updates) = is_nonempty u.values || has_values updates

  any_value_star : (values : List (Value w)) → any_value "*" values ≡ is_nonempty values
  unfolding matches is_pattern_match
  any_value_star [] = refl
  any_value_star (v ∷ values) = refl

  any_update_star : (updates : List (Update w)) → any_update "*" updates ≡ has_values updates
  any_update_star [] = refl
  any_update_star (u ∷ updates) = rw (any_value_star u.values, any_update_star updates) refl

  all_paths_subscribed :
      (context : String) (m : Mapped w)
      → is_subscribed_to (handle_subscribe_messages new_client (all_paths context)) m
        ≡ matches m.context (message_context new_client (all_paths context)) && has_values m.updates
  unfolding is_subscribed_to handle_subscribe_messages subscribe_all subscribe_path unsubscribe_all
      lookup insert
  all_paths_subscribed context m = rw (any_update_star m.updates) (ground arith)

  -- A client that has not written yet is sent no delta if the query parameter is none, and else
  -- those that hold a value and whose context matches a star, if the parameter is all, or the own
  -- vessel; where the own vessel is called vessels.self, the empty text stands for it.
  pub serve_ws-is_subscribed_to :
      (self parameter : String) (m : Mapped w)
      → is_subscribed_to (serve_ws self parameter) m ≡ (
          if str_eq parameter "none"
          then false
          else matches m.context (first_context self parameter) && has_values m.updates)
  unfolding serve_ws message_context
  serve_ws-is_subscribed_to self parameter m = elim (Bool-cases (str_eq parameter "none")) [
    | inl e ↦ rw e (unfold is_subscribed_to in refl)
    | inr e ↦ elim (Bool-cases (str_eq parameter "all")) [
      | inl a ↦ rw (e, a) (all_paths_subscribed "*" m)
      | inr a ↦ rw (e, a) (all_paths_subscribed self m)
    ]
  ]
