-- ===== src/Transfer/Sender/Start.antt =====
-- How file-send.ts offers a file, starts to send it, and how a transfer is ended. `sanitize` is
-- sanitizeFilename. An async function is cut at its waits.
use unseen_fyi.Prelude.{
  ℕ, ◌+◌, Bool, true, false, not, ◌&&◌, ◌||◌, Option, none, some, String, ltb, ◌==◌, is_some,
  if◌then◌else◌,
}
use unseen_fyi.Prelude.Eq.{string_eq}
use unseen_fyi.Prelude.Result.{Result, ok, err}
use unseen_fyi.Wire.Bytes.{Bytes}
use unseen_fyi.Wire.Envelope.{
  PlaintextEnvelope, FileDeclineReason, unsupported, FileCancelReason, user_aborted,
  integrity_failure, receiver,
}
use unseen_fyi.Client.MessageLog.{
  SystemEventKind, file_transfer_failed, file_transfer_cancelled, file_peer_unavailable,
}
use unseen_fyi.Transfer.Receiver.{max_file_size_bytes}
use unseen_fyi.Transfer.Sender.{
  Worker, File, Described, TransferState, offered, sending, verifying, send_envelope, system_event,
  file_message, post_init, post_abort, terminate, State, emit, drop_transfer, finish_with_event,
  send_cancel, described, fail_cancelled, same_worker, finalize_verifying_as_success,
  generate_tid_hex,
}

-- Whether spawnWorker, file.stream and the post of 'init' do not throw.
pub record Spawn : Type 0 where
  pub spawned : Bool
  pub streamed : Bool
  pub posted : Bool

-- initialiseWorker up to its wait: the new worker, unless that failed. The runtime numbers workers.
unfoldable pub initialise_worker : Spawn → String → State → Option Worker × State
unfolding finish_with_event emit
initialise_worker sp tid s =
    let worker : Worker = s.next_worker in
    let started : State = record s { active_worker = some worker; next_worker = worker + 1 } in
    if not sp.spawned
    then (none, finish_with_event file_transfer_failed none s)
    else if not (sp.streamed && sp.posted)
    then (none, finish_with_event file_transfer_failed (some worker) started)
    else (some worker, emit (post_init worker tid) started)

unfoldable pub accept_of : Spawn → String → Option TransferState → State → Option Worker × State
unfolding initialise_worker
accept_of sp tid (some (offered d file)) s =
    if string_eq.beq d.tid tid then initialise_worker sp tid s else (none, s)
accept_of sp tid none s = (none, s)
accept_of sp tid (some (sending d count worker)) s = (none, s)
accept_of sp tid (some (verifying d)) s = (none, s)

unfoldable pub on_file_accept_received : Spawn → String → State → Option Worker × State
unfolding accept_of
on_file_accept_received sp tid s = accept_of sp tid s.transfer_active s

-- Whether a send loop is started for the worker, and the state.
unfoldable pub start_sending : Worker → String → Option TransferState → State → Bool × State
unfolding emit
start_sending worker tid (some (offered d file)) s =
    if string_eq.beq d.tid tid
    then (
      not s.send_loop_running,
      record s { transfer_active = some (sending d 0 worker); send_loop_running = true },
    )
    else (false, emit (post_abort worker) s)
start_sending worker tid none s = (false, emit (post_abort worker) s)
start_sending worker tid (some (sending d count active)) s = (false, emit (post_abort worker) s)
start_sending worker tid (some (verifying d)) s = (false, emit (post_abort worker) s)

-- After `workerReady`.
unfoldable pub worker_ready_known : Bool → Worker → String → State → Bool × State
unfolding start_sending fail_cancelled
worker_ready_known true worker tid s = start_sending worker tid s.transfer_active s
worker_ready_known false worker tid s =
    (false, if same_worker s.active_worker worker then fail_cancelled tid worker s else s)

abbrev pub decline_event : FileDeclineReason → SystemEventKind
decline_event unsupported = file_peer_unavailable
decline_event _ = file_transfer_cancelled

abbrev pub cancel_event : FileCancelReason → SystemEventKind
cancel_event integrity_failure = file_transfer_failed
cancel_event _ = file_transfer_cancelled

-- FILE_ACCEPT goes to `on_file_accept_received`; the other envelopes are none of the receiver's.
unfoldable pub dispatch_to : Described → PlaintextEnvelope → State → State
unfolding finish_with_event finalize_verifying_as_success
dispatch_to d (PlaintextEnvelope.file_decline tid reason) s =
    finish_with_event (decline_event reason) none s
dispatch_to d (PlaintextEnvelope.file_complete_ack tid) s = finalize_verifying_as_success d s
dispatch_to d (PlaintextEnvelope.file_cancel tid receiver reason) s =
    finish_with_event (cancel_event reason) none s
dispatch_to d _ s = s

unfoldable pub dispatch_of : String → PlaintextEnvelope → Option TransferState → State → State
unfolding dispatch_to
dispatch_of tid envelope none s = s
dispatch_of tid envelope (some current) s =
    if string_eq.beq tid (described current).tid
    then dispatch_to (described current) envelope s
    else s

unfoldable pub dispatch_from_receiver : String → PlaintextEnvelope → State → State
unfolding dispatch_of
dispatch_from_receiver tid envelope s = dispatch_of tid envelope s.transfer_active s

unfoldable pub cancel_of : FileCancelReason → Option TransferState → State → State
unfolding finish_with_event send_cancel
cancel_of reason none s = s
cancel_of reason (some current) s =
    finish_with_event file_transfer_cancelled none (send_cancel (described current).tid reason s)

unfoldable pub cancel_active : FileCancelReason → State → State
unfolding cancel_of
cancel_active reason s = cancel_of reason s.transfer_active s

-- The callback of the offer's timeout.
unfoldable pub offer_timed_out : String → Option TransferState → State → State
unfolding emit drop_transfer send_cancel
offer_timed_out tid (some (offered d file)) s =
    if string_eq.beq d.tid tid
    then emit (system_event file_transfer_cancelled)
        (drop_transfer (send_cancel tid user_aborted s))
    else s
offer_timed_out tid none s = s
offer_timed_out tid (some (sending d count worker)) s = s
offer_timed_out tid (some (verifying d)) s = s

unfoldable pub offer_file : File → String → Result String → State → Result State
unfolding emit
offer_file file name (err e) s = err e
offer_file file name (ok tid) s = ok (
    emit (send_envelope (PlaintextEnvelope.file_offer tid name file.size)) (
      emit (file_message tid) (record s {
        transfer_active = some (offered (record { tid = tid; name = name; size = file.size }) file);
        sender_file_ref = some file;
      })))

unfoldable pub start_named : File → (ℕ → Bytes) → Option String → State → Result State
unfolding offer_file generate_tid_hex emit
start_named file draws none s = ok (emit (system_event file_transfer_failed) s)
start_named file draws (some name) s = offer_file file name (generate_tid_hex 16 draws) s

-- startTransfer up to its wait.
unfoldable pub start_transfer : (String → Option String) → (ℕ → Bytes) → File → State → Result State
unfolding start_named emit
start_transfer sanitize draws file s =
    if is_some s.transfer_active || s.is_incoming
    then ok s
    else if (file.size == 0) || ltb max_file_size_bytes file.size
    then ok (emit (system_event file_transfer_failed) s)
    else start_named file draws (sanitize file.name) s

abbrev is_for : String → Option TransferState → Bool
is_for tid none = false
is_for tid (some current) = string_eq.beq (described current).tid tid

-- After FILE_OFFER was sent, or was not.
unfoldable pub offer_sent : Bool → String → State → State
unfolding drop_transfer
offer_sent sent tid s = if not sent && is_for tid s.transfer_active then drop_transfer s else s

unfoldable pub terminate_active : Option Worker → State → State
unfolding emit
terminate_active none s = s
terminate_active (some worker) s = emit (terminate worker) s

unfoldable pub page_hidden_of : Bool → Option TransferState → State → State
unfolding terminate_active drop_transfer send_cancel
page_hidden_of is_open none s = s
page_hidden_of is_open (some current) s = drop_transfer (
    terminate_active s.active_worker
      (if is_open then send_cancel (described current).tid user_aborted s else s))

-- The callback of onPageHide; `is_open` is whether there is a socket that is open.
unfoldable pub page_hidden : Bool → State → State
unfolding page_hidden_of
page_hidden is_open s = page_hidden_of is_open s.transfer_active s

unfoldable pub fail_closed : State → State
unfolding emit drop_transfer terminate_active
fail_closed s =
    emit (system_event file_transfer_failed) (drop_transfer (terminate_active s.active_worker s))

unfoldable pub ws_close_of : Option TransferState → State → State
unfolding fail_closed
ws_close_of none s = s
ws_close_of (some (offered d file)) s = s
ws_close_of (some (sending d count worker)) s = fail_closed s
ws_close_of (some (verifying d)) s = fail_closed s

unfoldable pub on_ws_close : State → State
unfolding ws_close_of
on_ws_close s = ws_close_of s.transfer_active s

unfoldable pub shutdown : State → State
unfolding drop_transfer terminate_active
shutdown s = drop_transfer (terminate_active s.active_worker s)
