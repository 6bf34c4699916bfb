-- ===== src/Channel.antt =====
-- client/src/domain: the counters, nonces and frames of the encrypted channel.
pub mod Nonce
pub mod Send
pub mod Counters
pub mod Receive
pub mod Replay
pub mod Task
pub mod RoundTrip
pub mod Examples
