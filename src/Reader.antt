-- ===== src/Reader.antt =====
-- reader/: how deltas from elsewhere come to the message bus.
pub mod Mqtt
pub mod MqttLaws
mod MqttTests
