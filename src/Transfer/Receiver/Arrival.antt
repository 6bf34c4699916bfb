-- ===== src/Transfer/Receiver/Arrival.antt =====
-- What file-receive.ts does with chunks, with the worker's answers and with FILE_COMPLETE. A handler
-- works on the object that `incomingActive` holds: its contents go along with the state, and are put
-- back at the end, unless the transfer was ended on the way.
use unseen_fyi.Prelude.{
  ℕ, ◌+◌, ◌-◌, Bool, true, false, not, ◌&&◌, ◌||◌, Option, none, some, String, List, [], ◌∷◌, ◌++◌,
  length, ltb, leb, ◌==◌, is_some, if◌then◌else◌,
}
use unseen_fyi.Prelude.Dict.{set}
use unseen_fyi.Prelude.Eq.{string_eq}
use unseen_fyi.Prelude.Result.{Result, ok, err}
use unseen_fyi.Wire.Bytes.{Bytes}
use unseen_fyi.Wire.Codes.{Role}
use unseen_fyi.Wire.Envelope.{PlaintextEnvelope, integrity_failure}
use unseen_fyi.Client.MessageLog.{file_transfer_failed}
use unseen_fyi.Channel.Send.{Aead}
use unseen_fyi.Channel.Receive.{CounterMode, RelayFrameResult, accepted, decrypt_chunk_frame}
use unseen_fyi.Transfer.Chunks.{
  ChunkPlaintext, parse_chunk_plaintext, compute_total_chunks, expected_chunk_len,
}
use unseen_fyi.Transfer.Receiver.{
  Worker, Chunk, Receiving, chunk, finalize, send_envelope, post, cleanup_opfs, attachment_changed,
  State, emit, drop_incoming, finish_transfer, send_cancel, integrity_failure_abort,
  notify_receive_progress, put, get_receiving_state, is_receiving, recv_pending_hard_cap_chunks,
  progress_min_interval_ms, progress_min_bytes,
}

unfoldable pub maybe_finalize : Receiving → State → Receiving × State
unfolding emit
maybe_finalize r s =
    if r.finalize_requested
      || not (is_some r.sender_sha256)
      || ltb 0 (length r.pending_chunk_queue)
      || ltb r.bytes_written r.expected_size
    then (r, s)
    else (record r { finalize_requested = true }, emit (post r.worker finalize) s)

-- `throws` is whether the worker's postMessage throws. There is credit whenever this is called.
unfoldable pub post_chunk_to_worker : Bool → Chunk → Receiving → State → Receiving × State
unfolding emit integrity_failure_abort
post_chunk_to_worker throws c r s = if throws then (r, integrity_failure_abort r s) else (
  record r { receive_credit = r.receive_credit - 1 },
  emit (post r.worker (chunk c.seq c.payload)) s,
)

unfoldable pub maybe_send_progress : ℕ → Receiving → State → State
unfolding emit
maybe_send_progress now r s =
    if ltb now (s.last_progress_at + progress_min_interval_ms)
    then s
    else if ltb r.bytes_written (s.last_progress_bytes + progress_min_bytes)
    then s
    else emit (send_envelope (PlaintextEnvelope.file_progress r.tid r.bytes_written))
        (record s { last_progress_at = now; last_progress_bytes = r.bytes_written })

-- The object's contents, put back if it still is the value of `incomingActive`.
unfoldable pub write_back : Receiving → State → State
unfolding is_receiving
write_back r s = if is_receiving s then put r s else s

-- The queue's head, if there is one, goes to the worker.
unfoldable pub post_next : Bool → List Chunk → Receiving → State → Receiving × State
unfolding post_chunk_to_worker
post_next throws [] r s = (r, s)
post_next throws (c ∷ cs) r s =
    post_chunk_to_worker throws c (record r { pending_chunk_queue = cs }) s

unfoldable pub acknowledged : ℕ → Receiving → Receiving
acknowledged bytes r = record r {
  bytes_written = r.bytes_written + bytes;
  receive_credit = r.receive_credit + 1;
}

unfoldable pub handle_worker_written : Bool → ℕ → ℕ → Receiving → State → State
unfolding acknowledged post_next maybe_send_progress maybe_finalize notify_receive_progress
    write_back
handle_worker_written throws now bytes old s =
    let r = acknowledged bytes old in
    let (r', posted) = post_next throws r.pending_chunk_queue r s in
    let (r'', settled) = maybe_finalize r' (maybe_send_progress now r' posted) in
    notify_receive_progress r'' (write_back r'' settled)

-- The worker's last message.
pub record Done : Type 0 where
  pub sha256_hex : String
  pub bytes_written : ℕ
  pub file_size : ℕ

abbrev pub same_sha : Option String → String → Bool
same_sha none sha = false
same_sha (some expected) sha = string_eq.beq sha expected

unfoldable pub is_intact : Receiving → Done → Bool
is_intact r msg =
    same_sha r.sender_sha256 msg.sha256_hex
    && (msg.bytes_written == r.expected_size)
    && (msg.file_size == r.expected_size)

-- If the file is not intact, the rest follows once `cleanupOpfs` has ended.
unfoldable pub handle_worker_done : Receiving → Done → State → State
unfolding is_intact emit send_cancel drop_incoming set
handle_worker_done r msg s =
    if not (is_intact r msg)
    then (let cancelled = emit (cleanup_opfs r.tid) (send_cancel r.tid integrity_failure s) in
        record cancelled { failing = cancelled.failing + 1 })
    else emit (send_envelope (PlaintextEnvelope.file_complete_ack r.tid)) (
        drop_incoming (
          emit attachment_changed (record s {
            attachment_map =
                set s.attachment_map r.tid (record { name = r.name; size = r.expected_size });
            session_received_bytes = s.session_received_bytes + r.expected_size;
          })))

unfoldable pub cleanup_finished : State → State
unfolding finish_transfer
cleanup_finished s = finish_transfer file_transfer_failed (record s { failing = s.failing - 1 })

pub data WorkerOut : Type 0 where
  ready closed short_write fatal : WorkerOut
  written : ℕ → ℕ → WorkerOut
  done : Done → WorkerOut

unfoldable pub handle_from : Bool → ℕ → WorkerOut → Receiving → State → State
unfolding handle_worker_written handle_worker_done integrity_failure_abort
handle_from throws now ready r s = s
handle_from throws now closed r s = s
handle_from throws now (written seq bytes) r s = handle_worker_written throws now bytes r s
handle_from throws now (done msg) r s = handle_worker_done r msg s
handle_from throws now short_write r s = integrity_failure_abort r s
handle_from throws now fatal r s = integrity_failure_abort r s

-- Only the messages of the current transfer's worker count.
unfoldable pub from_worker : (Receiving → State → State) → Worker → Option Receiving → State → State
from_worker handle w none s = s
from_worker handle w (some r) s = if r.worker == w then handle r s else s

unfoldable pub handle_worker_message : Bool → ℕ → WorkerOut → Worker → State → State
unfolding from_worker handle_from get_receiving_state
handle_worker_message throws now msg w s =
    from_worker (handle_from throws now msg) w (get_receiving_state s) s

unfoldable pub handle_worker_error : Worker → State → State
unfolding from_worker get_receiving_state integrity_failure_abort
handle_worker_error w s = from_worker integrity_failure_abort w (get_receiving_state s) s

unfoldable pub is_expected : Receiving → ChunkPlaintext → Bool
unfolding compute_total_chunks expected_chunk_len
is_expected r parsed =
    let total = compute_total_chunks r.expected_size in
    (parsed.seq == r.next_expected_seq)
    && not (leb total parsed.seq)
    && (length parsed.payload == expected_chunk_len r.expected_size parsed.seq total)

-- The chunk counted, then posted or queued.
unfoldable pub take_chunk : Bool → ChunkPlaintext → Receiving → State → State
unfolding post_chunk_to_worker write_back
take_chunk throws parsed old s =
    let c : Chunk = record { seq = parsed.seq; payload = parsed.payload } in
    let s' = if parsed.seq == 0 then record s { receive_stall_timer = none } else s in
    let r = record old {
      next_expected_seq = old.next_expected_seq + 1;
      network_received_bytes = old.network_received_bytes + length parsed.payload;
    } in
    if ltb 0 r.receive_credit
    then (let (r', posted) = post_chunk_to_worker throws c r s' in write_back r' posted)
    else put (record r { pending_chunk_queue = r.pending_chunk_queue ++ c ∷ [] }) s'

unfoldable pub receive_chunk : Bool → ChunkPlaintext → Option Receiving → State → State
unfolding is_expected take_chunk integrity_failure_abort
receive_chunk throws parsed none s = s
receive_chunk throws parsed (some r) s =
    if not (string_eq.beq parsed.tid_hex r.tid)
    then s
    else if not (is_expected r parsed)
    then integrity_failure_abort r s
    else if leb recv_pending_hard_cap_chunks (length r.pending_chunk_queue)
    then integrity_failure_abort r s
    else take_chunk throws parsed r s

unfoldable pub dispatch_parsed : Bool → Option ChunkPlaintext → State → Result State
unfolding receive_chunk get_receiving_state
dispatch_parsed throws none s = err "relay_malformed_chunk"
dispatch_parsed throws (some parsed) s = ok (receive_chunk throws parsed (get_receiving_state s) s)

unfoldable pub dispatch_decrypted : Bool → Result RelayFrameResult → State → Result State
unfolding dispatch_parsed parse_chunk_plaintext
dispatch_decrypted throws (ok (accepted plaintext counter)) s =
    dispatch_parsed throws (parse_chunk_plaintext plaintext) s
dispatch_decrypted throws (ok RelayFrameResult.invalid_direction) s = err "relay_invalid_direction"
dispatch_decrypted throws (ok RelayFrameResult.invalid_reserved) s = err "relay_invalid_reserved"
dispatch_decrypted throws (ok RelayFrameResult.counter_gap) s = err "relay_counter_gap"
dispatch_decrypted throws (ok RelayFrameResult.decrypt_failed) s = err "relay_decrypt_failed"
dispatch_decrypted throws (err e) s = err e

-- The receive counter after the call, and the state; an error is what the promise rejects with.
module _ {Key : Type 0} (aead : Aead Key) where
  unfoldable pub dispatch_chunk_frame :
      Bool → ℕ → Role → Key → Bytes → Bytes → CounterMode → State → ℕ × Result State
  unfolding dispatch_decrypted
  dispatch_chunk_frame throws counter_recv role key nonce ciphertext mode s =
      let (counter, result) =
        decrypt_chunk_frame aead counter_recv role key nonce ciphertext mode in
      (counter, dispatch_decrypted throws result s)

unfoldable pub complete_of : String → String → Option Receiving → State → State
unfolding maybe_finalize integrity_failure_abort
complete_of tid sha none s = s
complete_of tid sha (some r) s =
    if not (string_eq.beq r.tid tid)
    then s
    else if ltb r.network_received_bytes r.expected_size
    then integrity_failure_abort r s
    else (let (r', s') = maybe_finalize (record r { sender_sha256 = some sha }) s in put r' s')

unfoldable pub dispatch_complete : String → String → State → State
unfolding complete_of get_receiving_state
dispatch_complete tid sender_sha256 s = complete_of tid sender_sha256 (get_receiving_state s) s
