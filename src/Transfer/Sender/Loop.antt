-- ===== src/Transfer/Sender/Loop.antt =====
-- The loop of file-send.ts that sends the chunks, one turn at a time, and what the worker says.
use unseen_fyi.Prelude.{
  ℕ, ◌+◌, ◌-◌, ◌*◌, ◌/◌, Bool, true, false, Option, none, some, String, List, [], ◌∷◌, ◌++◌, length,
  ltb, ◌==◌, if◌then◌else◌,
}
use unseen_fyi.Prelude.Eq.{string_eq}
use unseen_fyi.Wire.Envelope.{PlaintextEnvelope}
use unseen_fyi.Wire.Codes.{chunk_header_bytes}
use unseen_fyi.Client.MessageLog.{file_transfer_failed}
use unseen_fyi.Transfer.Sender.{
  Worker, PendingChunk, TransferState, offered, sending, verifying, send_envelope, send_chunk,
  post_pull, post_abort, State, emit, finish_with_event, fail_cancelled, same_worker,
  handle_worker_fatal,
}

abbrev pub outgoing_buffer_soft_cap : ℕ
outgoing_buffer_soft_cap = 196_608

abbrev pub sending_for : String → Option TransferState → Bool
sending_for tid (some (sending d sent worker)) = string_eq.beq d.tid tid
sending_for tid _ = false

unfoldable pub is_still_sending_for : String → State → Bool
is_still_sending_for tid s = sending_for tid s.transfer_active

-- Whether the pull was posted, and the state; `throws` is whether the post throws.
unfoldable pub pull_next_chunk : Bool → Worker → String → State → Bool × State
unfolding emit fail_cancelled
pull_next_chunk throws worker tid s =
    if throws then (false, fail_cancelled tid worker s) else (true, emit (post_pull worker) s)

-- The copy that a new percentage makes is the same state.
unfoldable pub advance_of : String → ℕ → Option TransferState → State → State
advance_of tid data_len (some (sending d sent worker)) s =
    let now = sent + data_len in
    if string_eq.beq d.tid tid
    then record s {
      transfer_active = some (sending d now worker);
      last_send_notify_percent = some (if d.size == 0 then 100 else now * 100 / d.size);
    }
    else s
advance_of tid data_len none s = s
advance_of tid data_len (some (offered d file)) s = s
advance_of tid data_len (some (verifying d)) s = s

unfoldable pub advance_sent_bytes : String → ℕ → State → State
unfolding advance_of
advance_sent_bytes tid data_len s = advance_of tid data_len s.transfer_active s

unfoldable pub drained_of : Worker → String → String → Option TransferState → State → State
unfolding emit
drained_of worker tid sha (some (sending d sent active)) s =
    if string_eq.beq d.tid tid
    then record (emit (post_abort worker)
        (emit (send_envelope (PlaintextEnvelope.file_complete tid sha)) s)) {
          active_worker = none;
          worker_final_received = false;
          pending_sha256_hex = none;
          transfer_active = some (verifying d);
        }
    else s
drained_of worker tid sha none s = s
drained_of worker tid sha (some (offered d file)) s = s
drained_of worker tid sha (some (verifying d)) s = s

unfoldable pub finalize_send_after_drain : Worker → String → String → State → State
unfolding drained_of
finalize_send_after_drain worker tid sha s = drained_of worker tid sha s.transfer_active s

-- Where the loop is after a turn: it has ended, sleeps, or waits for `sendChunk`.
pub data Turn : Type 0 where
  ended sleeps : Turn
  waits : PendingChunk → Turn

unfoldable pub end_loop : State → Turn × State
end_loop s = (ended, record s { send_loop_running = false })

unfoldable pub no_chunk : Worker → String → Bool → Option String → State → Turn × State
unfolding end_loop finalize_send_after_drain
no_chunk worker tid true (some sha) s = end_loop (finalize_send_after_drain worker tid sha s)
no_chunk worker tid true none s = (sleeps, s)
no_chunk worker tid false sha s = (sleeps, s)

unfoldable pub next_chunk : Worker → String → List PendingChunk → State → Turn × State
unfolding no_chunk emit
next_chunk worker tid [] s = no_chunk worker tid s.worker_final_received s.pending_sha256_hex s
next_chunk worker tid (c ∷ cs) s =
    (waits c, emit (send_chunk c) (record s { pending_send_queue = cs }))

-- `buffered` is the socket's bufferedAmount, if there is a socket and it is open.
unfoldable pub open_turn : Worker → String → Option ℕ → State → Turn × State
unfolding end_loop fail_cancelled next_chunk
open_turn worker tid none s = end_loop (fail_cancelled tid worker s)
open_turn worker tid (some buffered) s =
    if ltb outgoing_buffer_soft_cap buffered
    then (sleeps, s)
    else next_chunk worker tid s.pending_send_queue s

unfoldable pub loop_turn : Worker → String → Option ℕ → State → Turn × State
unfolding is_still_sending_for open_turn end_loop
loop_turn worker tid buffered s =
    if is_still_sending_for tid s then open_turn worker tid buffered s else end_loop s

-- What the promise of `sendChunk` gives.
pub data Answer : Type 0 where
  sent not_sent rejected : Answer

-- The rest of the turn, then the next one.
unfoldable pub after_pull : Worker → String → PendingChunk → Option ℕ → Bool × State → Turn × State
unfolding end_loop loop_turn advance_sent_bytes
after_pull worker tid c buffered (true, s) =
    loop_turn worker tid buffered (advance_sent_bytes tid (length c.payload - chunk_header_bytes) s)
after_pull worker tid c buffered (false, s) = end_loop s

unfoldable pub chunk_answered :
    Worker → String → PendingChunk → Bool → Option ℕ → Answer → State → Turn × State
unfolding after_pull pull_next_chunk end_loop finish_with_event fail_cancelled is_still_sending_for
chunk_answered worker tid c throws buffered sent s =
    after_pull worker tid c buffered
      (if s.worker_final_received then (true, s) else pull_next_chunk throws worker tid s)
chunk_answered worker tid c throws buffered not_sent s =
    end_loop (finish_with_event file_transfer_failed (some worker) s)
chunk_answered worker tid c throws buffered rejected s =
    end_loop (if is_still_sending_for tid s then fail_cancelled tid worker s else s)

-- What the worker says.
pub data WorkerOut : Type 0 where
  plaintext_chunk : PendingChunk → WorkerOut
  final : String → WorkerOut
  ready fatal closed : WorkerOut

abbrev is_sending : Option TransferState → Bool
is_sending (some (sending d count worker)) = true
is_sending _ = false

unfoldable pub said : WorkerOut → Worker → State → State
unfolding handle_worker_fatal
said (plaintext_chunk c) worker s = record s { pending_send_queue = s.pending_send_queue ++ c ∷ [] }
said (final sha) worker s =
    if is_sending s.transfer_active
    then record s { worker_final_received = true; pending_sha256_hex = some sha }
    else s
said fatal worker s = handle_worker_fatal worker s
said ready worker s = s
said closed worker s = s

unfoldable pub handle_worker_message : WorkerOut → Worker → State → State
unfolding said
handle_worker_message msg worker s =
    if same_worker s.active_worker worker then said msg worker s else s
