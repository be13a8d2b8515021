-- ===== src/Writer/Websocket.antt =====
-- writer/websocket.go: the websocket server, its clients' subscriptions, and its cache of deltas.
pub mod Pattern
pub mod PatternLaws
pub mod Subscriptions
pub mod SubscriptionLaws
pub mod Cache
pub mod CacheLaws
pub mod Hub
pub mod HubLaws
pub mod HubSilence
pub mod Serve
pub mod ServeLaws
pub mod FirstSubscription
mod ServeTests
mod Tests
