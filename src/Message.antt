-- ===== src/Message.antt =====
-- message/: raw and mapped messages, the values they carry, and how values are compared, merged and
-- decoded.
pub mod Values
pub mod Merger
pub mod Decoding
pub mod Delta
pub mod RawMessage
pub mod RawJson
pub mod RawJsonLaws
pub mod Merging
pub mod Flatten
pub mod Comparison
pub mod DecodeOrder
pub mod Samples
mod Tests
