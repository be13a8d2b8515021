-- ===== src/Writer/Websocket/Tests.antt =====
-- The theorems about writer/websocket.go at concrete inputs.
use gosk.Prelude.{
  ◌≡◌, ◌↔◌, refl, true, false, not, ◌&&◌, ◌||◌, str_eq, ◌==◌, List, [], ◌∷◌, codes, none, ok,
}
use gosk.Prelude.Assoc.{lookup, insert, update_all}
use gosk.Message.Samples.{sample, speed, update, delta_of}
use gosk.Message.Delta.{to_single_value_mapped}
use gosk.Writer.Websocket.Pattern.{is_pattern_match}
use gosk.Writer.Websocket.PatternLaws.{Matches, is_pattern_match_iff}
use gosk.Writer.Websocket.Subscriptions.{
  Client, SubscribeMessage, matches, message_context, handle_subscribe_messages, subscribe_all,
  subscribe_path, unsubscribe_all, unsubscribe_path, remove_paths,
}
use gosk.Writer.Websocket.SubscriptionLaws.{
  IsWellFormed, has, listed, excluded, subscribed, handle_subscribe_messages-IsWellFormed,
  has-handle_subscribe_messages,
}
use gosk.Writer.Websocket.Cache.{content_of, inject_or_update}
use gosk.Writer.Websocket.CacheLaws.{cached, last_or, cached-inject_or_update}
use gosk.Writer.Websocket.Hub.{Hub, Event, connect, register, unregister, broadcast, run}
use gosk.Writer.Websocket.HubLaws.{run_total}

is_pattern_match_iff_example :
    (is_pattern_match (codes "navigation.speed") (codes "nav*.s*") ≡ true)
    ↔ Matches (codes "navigation.speed") (codes "nav*.s*")
is_pattern_match_iff_example = is_pattern_match_iff (codes "navigation.speed") (codes "nav*.s*")

abbrev fresh : Client
fresh = record { subscriptions = none; self = "" }

fresh-IsWellFormed : IsWellFormed (subscribed fresh)
unfolding lookup
fresh-IsWellFormed = record { contexts = tt; paths = λ c. tt }

abbrev listen : SubscribeMessage
listen = record { context = "*"; subscribe = "nav*" ∷ "env*" ∷ []; unsubscribe = [] }

abbrev drop_nav : SubscribeMessage
drop_nav = record { context = "*"; subscribe = []; unsubscribe = "nav*" ∷ [] }

abbrev listening : Client
listening = handle_subscribe_messages fresh listen

listening-IsWellFormed : IsWellFormed (subscribed listening)
listening-IsWellFormed = handle_subscribe_messages-IsWellFormed fresh listen fresh-IsWellFormed

has-handle_subscribe_messages_example :
    has (subscribed (handle_subscribe_messages listening drop_nav)) "*" "env*"
    ≡ ((str_eq (message_context listening drop_nav) "*" && listed "env*" [])
        || has (subscribed listening) "*" "env*")
      && not (matches "*" (message_context listening drop_nav) && excluded "env*" ("nav*" ∷ []))
has-handle_subscribe_messages_example =
    has-handle_subscribe_messages listening drop_nav "*" "env*" listening-IsWellFormed

-- The other path is still there afterwards, and the dropped one is not.
nav_dropped :
    (has (subscribed (handle_subscribe_messages listening drop_nav)) "*" "env*" ≡ true)
    × (has (subscribed (handle_subscribe_messages listening drop_nav)) "*" "nav*" ≡ false)
unfolding lookup insert update_all handle_subscribe_messages subscribe_all subscribe_path
    unsubscribe_all unsubscribe_path remove_paths matches is_pattern_match
nav_dropped = (refl, refl)

cached-inject_or_update_example :
    cached
      (content_of (inject_or_update none (delta_of (update (speed 1 ∷ speed 2 ∷ []) ∷ []))))
      "ship"
      "navigation.speed"
    ≡ last_or "ship" "navigation.speed"
        (to_single_value_mapped (delta_of (update (speed 1 ∷ speed 2 ∷ []) ∷ [])))
        (cached (content_of none) "ship" "navigation.speed")
cached-inject_or_update_example =
    cached-inject_or_update none (delta_of (update (speed 1 ∷ speed 2 ∷ []) ∷ [])) "ship"
      "navigation.speed"

abbrev empty_hub : Hub sample
empty_hub = record { self = "vessels.self"; connections = []; cache = none }

-- Two clients, of which the second does not keep up and is dropped, and is unregistered once more
-- by its own goroutines.
abbrev session : List (Event sample)
session =
    connect 1 listening
    ∷ register 1
    ∷ connect 2 listening
    ∷ register 2
    ∷ broadcast (delta_of (update (speed 1 ∷ []) ∷ [])) (λ i. i == 2)
    ∷ unregister 2
    ∷ unregister 2
    ∷ unregister 1
    ∷ []

run_total_example : (h : Hub sample) × (run empty_hub session ≡ ok h)
run_total_example = run_total empty_hub session refl (refl, (refl, tt))
