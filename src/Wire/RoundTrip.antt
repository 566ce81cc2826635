-- ===== src/Wire/RoundTrip.antt =====
-- decode after encode.
pub mod Layout
pub mod Checked
pub mod Fixed
pub mod Payload
pub mod Fields
pub mod FieldLoop
pub mod MetaTrip
pub mod Packets
