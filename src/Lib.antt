-- ===== src/Lib.antt =====
-- A model of unseen.fyi: two clients talk through a relay that only ever sees ciphertext.
--
-- The parts and how they interact. A client opens a WebSocket to the relay
-- (client/src/transport), says HELLO with a room id, and is put into a room with at most one
-- other client (server/src/room). From then on the relay forwards HANDSHAKE and RELAY frames
-- between the two sockets of the room (server/src/wire/handlers.ts), within the limits of
-- server/src/ratelimit. The frames are those of shared/src/wire. RELAY frames carry AES-GCM
-- ciphertexts with counters in their nonces (client/src/domain/nonce.ts, send.ts, receive.ts),
-- and the plaintexts of messages are the envelopes of shared/src/wire/envelope.ts.
--
-- The files:
-- Prelude: shared names; lists over the native numbers, equality, results, the Map of
--   JavaScript.
-- Wire: shared/src/wire. Codes and Frames have the constants and the frame types, Encode and
--   Decode the functions of codec.ts on lists of bytes (Bytes), Layout, RoundTrip and
--   Canonical the proofs; Envelope has the field tests of envelope.ts, Envelope/Codec
--   encodeEnvelope and decodeEnvelope; ModeFrame is mode-frame.ts.
-- Limit: server/src/ratelimit. Bucket is relay-bucket.ts, IpKey and IpLimiter are
--   ip-limiter.ts; Rate and Bounds are about them.
-- Room: server/src/room/registry.ts and keepalive.ts.
-- Relay: server/src/wire/handlers.ts, with server/src/room/send.ts (Send), server/src/types.ts
--   and server/src/metrics/counters.ts (State), the HELLO handlers (Hello), handleForward
--   (Forward), and the other handlers with server/src/room/cleanup.ts (Events). The handlers
--   take the server's whole state and return it. Relay/Invariant is what holds of all
--   reachable states, Isolation, Sweep and StaleClose are about single handlers, Delivery with
--   Relayed and Handshakes about what becomes of a frame of a paired room; Relief is
--   server/src/memory-pressure.ts.
-- Channel: client/src/domain/nonce.ts, send.ts (with canAttemptSend of
--   client/src/transport/send-pipeline.ts) and receive.ts; Counters, Task, Replay and
--   RoundTrip are about them.
-- Client: client/src/transport/ws.ts (Connection) and reconnect.ts (Reconnect),
--   client/src/state/message-log.ts (MessageLog), client/src/domain/unicode-sanitize.ts
--   (UnicodeSanitize: Filename about names of files, Combining about runs of marks).
-- Transfer: the file transfer. Chunks is how client/src/workers/file-send-worker.ts cuts a
--   file and writes a chunk, and how client/src/domain/file-receive.ts reads one; Receiver is
--   createFileReceiver of that file with the signals of client/src/domain/file-state.ts, as a
--   machine: Acceptance has the offer and its acceptance, Ending how a transfer is declined,
--   cancelled or given up, Arrival the chunks, the worker's answers and FILE_COMPLETE, Events
--   the step of the machine, Invariant what holds between two events, Passed the chunks that
--   went to the worker or wait for it, Honest what becomes of a piece of an honest sender,
--   FailedPost a post that throws. SendWorker is the pipeline of
--   client/src/workers/file-send-worker.ts with its credit; Order and Schedule are about what
--   it posts. ReceiveWorker is client/src/workers/file-receive-worker.ts, whose messages go to
--   and come from the receiver. Sender is client/src/domain/file-send.ts: Start has the offer,
--   the start of the worker and the ends of a transfer, Loop the send loop and the worker's
--   messages, Drain what the loop does when nothing fails.
--
-- What the model assumes. The runtime's answers (what a send returns, how much is buffered,
-- isIP) are functions of all that was asked of it before. The close event of a socket comes as
-- an event of its own after ws.close. The clock does not move within a handler. Times are
-- whole milliseconds, and the tokens of a bucket are counted in units of 1/60000 with rates
-- per minute, so that refills are exact where the program computes with floating-point
-- numbers. Addresses and room ids are lists of character codes. AES-GCM is a parameter with
-- the documented behaviour as a law, and JSON with the UTF-8 codec is one too. A function that
-- throws gives an error value or none. In the file receiver a wait for a promise ends a step,
-- and what it gives comes as an event; postMessage of a chunk and spawnWorker may throw, the
-- other calls without a catch do not. The file system of the receive worker is a parameter: a
-- write at the end of a file that says it wrote all its data appended it.
--
-- Bounds. All loops of the source are over lists, and are recursions on these, but for three:
-- the cutting of a file into pieces takes as many rounds as there are bytes, which is enough
-- since a round takes a piece that is not empty; the search for the longest prefix that
-- decodes counts down from the cap; and the draws of a transfer's id count down from 16, as in
-- the source. A turn of the sender's loop is one definition, and its rounds are counted by the
-- theorem about it.
--
-- Not modelled: the session of the client (handshake, resume, rekey), how the waits of the
-- file sender interleave, what the send worker does when its stream fails, the storage and
-- user interface of the client, and the relay's configuration, HTTP and static files. The
-- promise chain of createSendSerializer is not modelled: a send task runs alone.
pub mod Prelude
pub mod Wire
pub mod Limit
pub mod Room
pub mod Relay
pub mod Channel
pub mod Client
pub mod Transfer
