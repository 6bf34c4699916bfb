-- ===== src/Transfer/Receiver/Ending.antt =====
-- How a transfer is declined, cancelled or given up in file-receive.ts.
use unseen_fyi.Prelude.{
  Bool, true, false, not, ◌||◌, Option, none, some, String, ◌==◌, if◌then◌else◌,
}
use unseen_fyi.Prelude.Eq.{string_eq}
use unseen_fyi.Wire.Envelope.{
  user_rejected, FileCancelReason, user_aborted, integrity_failure, FileCancelSide, sender,
  receiver,
}
use unseen_fyi.Client.MessageLog.{SystemEventKind, file_transfer_cancelled, file_transfer_failed}
use unseen_fyi.Transfer.Receiver.{
  Offer, Receiving, IncomingState, offer_pending, receiving, abort, system_event, post, terminate,
  cleanup_opfs, State, emit, drop_incoming, finish_transfer, send_cancel, integrity_failure_abort,
  send_decline, get_receiving_state,
}
use unseen_fyi.Transfer.Receiver.Acceptance.{pending_of}

unfoldable pub stalled : String → Option Receiving → State → State
unfolding integrity_failure_abort
stalled tid none s = s
stalled tid (some r) s =
    if not (string_eq.beq r.tid tid) || not (r.next_expected_seq == 0)
    then s
    else integrity_failure_abort r s

unfoldable pub fire_stall_timer : Option String → State → State
unfolding stalled get_receiving_state
fire_stall_timer none s = s
fire_stall_timer (some tid) s =
    stalled tid (get_receiving_state s) (record s { receive_stall_timer = none })

unfoldable pub stall_timer_fires : State → State
unfolding fire_stall_timer
stall_timer_fires s = fire_stall_timer s.receive_stall_timer s

unfoldable pub decline_pending : Option Offer → State → State
unfolding send_decline finish_transfer
decline_pending none s = s
decline_pending (some o) s =
    finish_transfer file_transfer_cancelled (send_decline o.tid user_rejected s)

unfoldable pub decline_offer : State → State
unfolding decline_pending
decline_offer s = decline_pending (pending_of s.incoming_active) s

-- cleanupOpfs once the worker was told to abort.
unfoldable pub release : IncomingState → State → State
unfolding emit
release (offer_pending o) s = s
release (receiving r) s = emit (cleanup_opfs r.tid) (emit (post r.worker abort) s)

unfoldable pub cancel_incoming : FileCancelReason → Option IncomingState → State → State
unfolding decline_offer release send_cancel finish_transfer
cancel_incoming reason none s = s
cancel_incoming reason (some (offer_pending o)) s = decline_offer s
cancel_incoming reason (some (receiving r)) s =
    finish_transfer file_transfer_cancelled (release (receiving r) (send_cancel r.tid reason s))

unfoldable pub cancel_active : FileCancelReason → State → State
unfolding cancel_incoming
cancel_active reason s = cancel_incoming reason s.incoming_active s

abbrev pub tid_of : IncomingState → String
tid_of (offer_pending o) = o.tid
tid_of (receiving r) = r.tid

abbrev pub cancel_event : FileCancelReason → SystemEventKind
cancel_event integrity_failure = file_transfer_failed
cancel_event _ = file_transfer_cancelled

abbrev pub is_sender : FileCancelSide → Bool
is_sender sender = true
is_sender receiver = false

unfoldable pub cancelled_by : String → FileCancelReason → Option IncomingState → State → State
unfolding release finish_transfer
cancelled_by tid reason none s = s
cancelled_by tid reason (some incoming) s =
    if string_eq.beq (tid_of incoming) tid
    then finish_transfer (cancel_event reason) (release incoming s)
    else s

unfoldable pub dispatch_cancel : String → FileCancelSide → FileCancelReason → State → State
unfolding cancelled_by
dispatch_cancel tid side reason s =
    if not (is_sender side) then s else cancelled_by tid reason s.incoming_active s

-- The callback of onPageHide.
unfoldable pub hide_incoming : Option IncomingState → State → State
unfolding drop_incoming emit send_cancel
hide_incoming none s = s
hide_incoming (some (offer_pending o)) s = drop_incoming s
hide_incoming (some (receiving r)) s =
    drop_incoming (emit (terminate r.worker) (send_cancel r.tid user_aborted s))

unfoldable pub page_hidden : State → State
unfolding hide_incoming
page_hidden s = hide_incoming s.incoming_active s

unfoldable pub fail_receiving : Option Receiving → State → State
unfolding drop_incoming emit
fail_receiving none s = s
fail_receiving (some r) s =
    emit (system_event file_transfer_failed) (drop_incoming (emit (terminate r.worker) s))

unfoldable pub on_ws_close : State → State
unfolding fail_receiving get_receiving_state
on_ws_close s = fail_receiving (get_receiving_state s) s

unfoldable pub stop_worker : Option Receiving → State → State
unfolding emit
stop_worker none s = s
stop_worker (some r) s = emit (terminate r.worker) s

unfoldable pub shutdown : State → State
unfolding stop_worker get_receiving_state drop_incoming
shutdown s = drop_incoming (stop_worker (get_receiving_state s) s)
