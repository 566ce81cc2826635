-- ===== src/Wire.antt =====
-- client/src/wire.ts: the datagram codec.
pub mod Types
pub mod Bytes
pub mod Checks
pub mod Decode
pub mod Encode
pub mod RoundTrip
pub mod MetaRules
pub mod Validity
