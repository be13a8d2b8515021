-- ===== src/Connector.antt =====
-- connector/: what a connector puts on the message bus, and the connector for lines of text.
pub mod Process
pub mod Lines
pub mod LineWriter
pub mod ProcessLaws
pub mod LinesLaws
pub mod ScanBounds
pub mod Forwarding
pub mod Samples
mod Tests
