-- ===== src/Transfer.antt =====
-- The file transfer: how the sender cuts a file, and the receiver with its worker.
pub mod Chunks
pub mod Receiver
pub mod ReceiveWorker
pub mod Sender
pub mod SendWorker
pub mod Examples
