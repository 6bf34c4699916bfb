-- ===== src/Transfer/Receiver/Invariant/Ends.antt =====
-- What ends a transfer keeps the invariant of the receiver.
use unseen_fyi.Prelude.{
  ◌-◌, ◌≡◌, refl, Bool, true, false, not, ◌||◌, Option, none, some, String, ◌==◌, if◌then◌else◌,
}
use unseen_fyi.Prelude.Eq.{string_eq}
use unseen_fyi.Wire.Envelope.{FileDeclineReason, FileCancelReason, FileCancelSide}
use unseen_fyi.Client.MessageLog.{SystemEventKind, file_transfer_failed}
use unseen_fyi.Transfer.Receiver.{
  Worker, Offer, Receiving, IncomingState, offer_pending, receiving, State, emit, finish_transfer,
  send_cancel, integrity_failure_abort, send_decline, decline_and_reset, get_receiving_state,
}
use unseen_fyi.Transfer.Receiver.Arrival.{cleanup_finished, from_worker, handle_worker_error}
use unseen_fyi.Transfer.Receiver.Acceptance.{
  offer_timed_out, fire_offer_timer, offer_timer_fires, abandon,
}
use unseen_fyi.Transfer.Receiver.Ending.{
  stalled, fire_stall_timer, stall_timer_fires, decline_pending, decline_offer, cancel_incoming,
  hide_incoming, fail_receiving, cancel_active, release, cancelled_by, dispatch_cancel, page_hidden,
  on_ws_close, stop_worker, shutdown, is_sender, tid_of,
}
use unseen_fyi.Transfer.Receiver.Invariant.{Inv, drop_incoming-Inv, emit-Inv}

pub Inv-if :
    (b : Bool) (x y : State) → (b ≡ true → Inv x) → (b ≡ false → Inv y) → Inv (if b then x else y)
Inv-if true x y h k = h refl
Inv-if false x y h k = k refl

pub finish_transfer-Inv :
    (event : SystemEventKind) (s : State) → Inv s → Inv (finish_transfer event s)
unfolding finish_transfer
finish_transfer-Inv event s h = emit-Inv _ _ (λ w. refl) (drop_incoming-Inv s h)

pub send_cancel-Inv :
    (tid : String) (reason : FileCancelReason) (s : State) → Inv s → Inv (send_cancel tid reason s)
unfolding send_cancel
send_cancel-Inv tid reason s h = emit-Inv _ s (λ w. refl) h

pub send_decline-Inv :
    (tid : String) (reason : FileDeclineReason) (s : State)
    → Inv s
    → Inv (send_decline tid reason s)
unfolding send_decline
send_decline-Inv tid reason s h = emit-Inv _ s (λ w. refl) h

pub integrity_failure_abort-Inv :
    (r : Receiving) (s : State) → Inv s → Inv (integrity_failure_abort r s)
unfolding integrity_failure_abort
integrity_failure_abort-Inv r s h =
    finish_transfer-Inv _ _
      (emit-Inv _ _ (λ w. refl) (emit-Inv _ _ (λ w. refl) (send_cancel-Inv r.tid _ s h)))

pub decline_and_reset-Inv :
    (tid : String) (w : Option Worker) (s : State) → Inv s → Inv (decline_and_reset tid w s)
unfolding decline_and_reset emit
decline_and_reset-Inv tid none s h = drop_incoming-Inv _ (send_decline-Inv tid _ s h)
decline_and_reset-Inv tid (some w) s h =
    drop_incoming-Inv _ (send_decline-Inv tid _ _ (emit-Inv _ s (λ v. refl) h))

pub abandon-Inv : (w : Worker) (o : Offer) (s : State) → Inv s → Inv (abandon w o s)
unfolding abandon
abandon-Inv w o s h = emit-Inv _ _ (λ v. refl) (emit-Inv _ s (λ v. refl) h)

pub cleanup_finished-Inv : (s : State) → Inv s → Inv (cleanup_finished s)
unfolding cleanup_finished
cleanup_finished-Inv s h =
    finish_transfer-Inv file_transfer_failed (record s { failing = s.failing - 1 })
      (record { parts = h.parts })

pub from_worker-Inv :
    (handle : Receiving → State → State) (w : Worker) (o : Option Receiving) (s : State)
    → ((r : Receiving) → o ≡ some r → Inv (handle r s))
    → Inv s
    → Inv (from_worker handle w o s)
unfolding from_worker
from_worker-Inv handle w none s k h = h
from_worker-Inv handle w (some r) s k h = Inv-if (r.worker == w) _ _ (λ _. k r refl) (λ _. h)

pub handle_worker_error-Inv : (w : Worker) (s : State) → Inv s → Inv (handle_worker_error w s)
unfolding handle_worker_error
handle_worker_error-Inv w s h =
    from_worker-Inv _ w (get_receiving_state s) s (λ r e. integrity_failure_abort-Inv r s h) h

offer_timed_out-Inv :
    (tid : String) (o : Option Offer) (s : State) → Inv s → Inv (offer_timed_out tid o s)
unfolding offer_timed_out
offer_timed_out-Inv tid none s h = h
offer_timed_out-Inv tid (some o) s h =
    Inv-if (string_eq.beq o.tid tid) _ _ (λ _. finish_transfer-Inv _ s h) (λ _. h)

fire_offer_timer-Inv : (t : Option String) (s : State) → Inv s → Inv (fire_offer_timer t s)
unfolding fire_offer_timer
fire_offer_timer-Inv none s h = h
fire_offer_timer-Inv (some tid) s h = offer_timed_out-Inv tid _ _ (record { parts = h.parts })

pub offer_timer_fires-Inv : (s : State) → Inv s → Inv (offer_timer_fires s)
unfolding offer_timer_fires
offer_timer_fires-Inv s h = fire_offer_timer-Inv s.offer_pending_timer s h

stalled-Inv : (tid : String) (o : Option Receiving) (s : State) → Inv s → Inv (stalled tid o s)
unfolding stalled
stalled-Inv tid none s h = h
stalled-Inv tid (some r) s h =
    Inv-if (not (string_eq.beq r.tid tid) || not (r.next_expected_seq == 0)) _ _ (λ _. h)
      (λ _. integrity_failure_abort-Inv r s h)

fire_stall_timer-Inv : (t : Option String) (s : State) → Inv s → Inv (fire_stall_timer t s)
unfolding fire_stall_timer
fire_stall_timer-Inv none s h = h
fire_stall_timer-Inv (some tid) s h = stalled-Inv tid _ _ (record { parts = h.parts })

pub stall_timer_fires-Inv : (s : State) → Inv s → Inv (stall_timer_fires s)
unfolding stall_timer_fires
stall_timer_fires-Inv s h = fire_stall_timer-Inv s.receive_stall_timer s h

decline_pending-Inv : (o : Option Offer) (s : State) → Inv s → Inv (decline_pending o s)
unfolding decline_pending
decline_pending-Inv none s h = h
decline_pending-Inv (some o) s h = finish_transfer-Inv _ _ (send_decline-Inv o.tid _ s h)

pub decline_offer-Inv : (s : State) → Inv s → Inv (decline_offer s)
unfolding decline_offer
decline_offer-Inv s h = decline_pending-Inv _ s h

release-Inv : (i : IncomingState) (s : State) → Inv s → Inv (release i s)
unfolding release
release-Inv (offer_pending o) s h = h
release-Inv (receiving r) s h = emit-Inv _ _ (λ v. refl) (emit-Inv _ s (λ v. refl) h)

cancel_incoming-Inv :
    (reason : FileCancelReason) (i : Option IncomingState) (s : State)
    → Inv s
    → Inv (cancel_incoming reason i s)
unfolding cancel_incoming
cancel_incoming-Inv reason none s h = h
cancel_incoming-Inv reason (some (offer_pending o)) s h = decline_offer-Inv s h
cancel_incoming-Inv reason (some (receiving r)) s h =
    finish_transfer-Inv _ _ (release-Inv (receiving r) _ (send_cancel-Inv r.tid reason s h))

pub cancel_active-Inv :
    (reason : FileCancelReason) (s : State) → Inv s → Inv (cancel_active reason s)
unfolding cancel_active
cancel_active-Inv reason s h = cancel_incoming-Inv reason s.incoming_active s h

cancelled_by-Inv :
    (tid : String) (reason : FileCancelReason) (i : Option IncomingState) (s : State)
    → Inv s
    → Inv (cancelled_by tid reason i s)
unfolding cancelled_by
cancelled_by-Inv tid reason none s h = h
cancelled_by-Inv tid reason (some i) s h =
    Inv-if (string_eq.beq (tid_of i) tid) _ _ (λ _. finish_transfer-Inv _ _ (release-Inv i s h))
      (λ _. h)

pub dispatch_cancel-Inv :
    (tid : String) (side : FileCancelSide) (reason : FileCancelReason) (s : State)
    → Inv s
    → Inv (dispatch_cancel tid side reason s)
unfolding dispatch_cancel
dispatch_cancel-Inv tid side reason s h =
    Inv-if (not (is_sender side)) _ _ (λ _. h) (λ _. cancelled_by-Inv tid reason _ s h)

hide_incoming-Inv : (i : Option IncomingState) (s : State) → Inv s → Inv (hide_incoming i s)
unfolding hide_incoming
hide_incoming-Inv none s h = h
hide_incoming-Inv (some (offer_pending o)) s h = drop_incoming-Inv s h
hide_incoming-Inv (some (receiving r)) s h =
    drop_incoming-Inv _ (emit-Inv _ _ (λ v. refl) (send_cancel-Inv r.tid _ s h))

pub page_hidden-Inv : (s : State) → Inv s → Inv (page_hidden s)
unfolding page_hidden
page_hidden-Inv s h = hide_incoming-Inv s.incoming_active s h

fail_receiving-Inv : (o : Option Receiving) (s : State) → Inv s → Inv (fail_receiving o s)
unfolding fail_receiving
fail_receiving-Inv none s h = h
fail_receiving-Inv (some r) s h =
    emit-Inv _ _ (λ v. refl) (drop_incoming-Inv _ (emit-Inv _ s (λ v. refl) h))

pub on_ws_close-Inv : (s : State) → Inv s → Inv (on_ws_close s)
unfolding on_ws_close
on_ws_close-Inv s h = fail_receiving-Inv _ s h

stop_worker-Inv : (o : Option Receiving) (s : State) → Inv s → Inv (stop_worker o s)
unfolding stop_worker
stop_worker-Inv none s h = h
stop_worker-Inv (some r) s h = emit-Inv _ s (λ v. refl) h

pub shutdown-Inv : (s : State) → Inv s → Inv (shutdown s)
unfolding shutdown
shutdown-Inv s h = drop_incoming-Inv _ (stop_worker-Inv _ s h)
