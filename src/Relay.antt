-- ===== src/Relay.antt =====
-- server/src/wire/handlers.ts: what the relay does on each event of a socket.
pub mod State
pub mod Send
pub mod Hello
pub mod Forward
pub mod Events
pub mod Invariant
pub mod Isolation
pub mod Delivery
pub mod StaleClose
pub mod Sweep
pub mod Relief
pub mod Examples
