-- ===== src/Modbus.antt =====
-- protocol/modbus.go and connector/modbus.go: the Modbus frames, the client over a device, its polling
-- for a register group, and the connector that starts the polls and writes what the bus brings.
pub mod FunctionCode
pub mod Codec
pub mod RoundTrip
pub mod Client
pub mod Poll
pub mod FrameLength
pub mod Frames
pub mod Polling
pub mod Connector
pub mod ConnectorPanic
pub mod Subscriber
pub mod SubscriberLaws
mod ConnectorTests
mod SubscriberTests
mod Tests
