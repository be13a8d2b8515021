-- ===== src/Writer.antt =====
-- writer/: how deltas and raw messages leave the program.
pub mod Lwe
pub mod LweLaws
pub mod LweBlocks
pub mod LweTagBlock
pub mod LweNumbers
mod LweTests
pub mod Mqtt
pub mod MqttLaws
pub mod MqttPoison
mod MqttTests
pub mod SignalK
pub mod SignalKLaws
pub mod SignalKLoad
mod SignalKTests
pub mod Websocket
