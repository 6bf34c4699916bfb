-- ===== src/Wire.antt =====
-- shared/src/wire: the frames between client and relay.
pub mod Bytes
pub mod Codes
pub mod Frames
pub mod Encode
pub mod Decode
pub mod Layout
pub mod RoundTrip
pub mod Canonical
pub mod Examples
pub mod Envelope
pub mod ModeFrame
