-- ===== src/Client.antt =====
-- client/src: parts of the client outside the encrypted channel.
pub mod MessageLog
pub mod Reconnect
pub mod Connection
pub mod UnicodeSanitize
pub mod Examples
