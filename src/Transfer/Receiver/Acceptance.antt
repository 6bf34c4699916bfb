-- ===== src/Transfer/Receiver/Acceptance.antt =====
-- How file-receive.ts takes up and accepts an offer.
-- `sanitize` is sanitizeFilename of client/src/domain/unicode-sanitize.ts.
use unseen_fyi.Prelude.{
  ℕ, ◌+◌, Bool, true, false, not, ◌||◌, Option, none, some, String, [], ltb, ◌==◌, is_some,
  if◌then◌else◌,
}
use unseen_fyi.Prelude.Dict.{get}
use unseen_fyi.Prelude.Eq.{string_eq}
use unseen_fyi.Wire.Envelope.{PlaintextEnvelope, FileDeclineReason, too_large, unsupported}
use unseen_fyi.Client.MessageLog.{file_transfer_cancelled, file_session_cap_reached}
use unseen_fyi.Transfer.Receiver.{
  Worker, Offer, Receiving, IncomingState, offer_pending, receiving, init, send_envelope,
  system_event, file_message, post, terminate, cleanup_opfs, Accepting, for_ready, for_sent, State,
  emit, finish_transfer, send_decline, decline_and_reset, recv_initial_credit, max_file_size_bytes,
  session_receive_cap_bytes,
}

pub data Verdict : Type 0 where
  decline : FileDeclineReason → Verdict
  accept : String → Verdict

-- The event is fired once in a session.
unfoldable pub note_session_cap : State → State
unfolding emit
note_session_cap s =
    if s.session_cap_event_fired
    then s
    else emit (system_event file_session_cap_reached) (record s { session_cap_event_fired = true })

unfoldable pub evaluate_named : String → ℕ → Option String → State → Verdict × State
unfolding note_session_cap get
evaluate_named tid size none s = (decline unsupported, s)
evaluate_named tid size (some name) s =
    if s.transfer_active || is_some s.incoming_active
    then (decline unsupported, s)
    else if is_some (get s.attachment_map tid)
    then (decline unsupported, s)
    else if ltb session_receive_cap_bytes (s.session_received_bytes + size)
    then (decline unsupported, note_session_cap s)
    else if not s.file_transfer_supported
    then (decline unsupported, s)
    else if not s.file_transfer_ready
    then (decline unsupported, s)
    else (accept name, s)

unfoldable pub install_offer_timeout : String → State → State
install_offer_timeout tid s = record s { offer_pending_timer = some tid }

unfoldable pub follow_verdict : String → ℕ → Verdict × State → State
unfolding send_decline emit install_offer_timeout
follow_verdict tid size (decline reason, s) = send_decline tid reason s
follow_verdict tid size (accept name, s) = install_offer_timeout tid (
    emit (file_message tid) (record s {
      incoming_active =
          some (
            offer_pending (record { serial = s.next_serial; tid = tid; name = name; size = size }));
      next_serial = s.next_serial + 1;
    }))

module _ (sanitize : String → Option String) where
  unfoldable pub evaluate_pre_accept : String → String → ℕ → State → Verdict × State
  unfolding evaluate_named
  evaluate_pre_accept tid name size s =
      if ltb max_file_size_bytes size
      then (decline too_large, s)
      else if size == 0
      then (decline unsupported, s)
      else evaluate_named tid size (sanitize name) s

  unfoldable pub dispatch_offer : String → String → ℕ → State → State
  unfolding evaluate_pre_accept follow_verdict
  dispatch_offer tid name size s = follow_verdict tid size (evaluate_pre_accept tid name size s)

abbrev pub pending_of : Option IncomingState → Option Offer
pending_of (some (offer_pending o)) = some o
pending_of _ = none

unfoldable pub offer_timed_out : String → Option Offer → State → State
unfolding finish_transfer
offer_timed_out tid none s = s
offer_timed_out tid (some o) s =
    if string_eq.beq o.tid tid then finish_transfer file_transfer_cancelled s else s

-- The callback of the offer's timeout; the timer is no longer armed.
unfoldable pub fire_offer_timer : Option String → State → State
unfolding offer_timed_out
fire_offer_timer none s = s
fire_offer_timer (some tid) s =
    offer_timed_out tid (pending_of s.incoming_active) (record s { offer_pending_timer = none })

unfoldable pub offer_timer_fires : State → State
unfolding fire_offer_timer
offer_timer_fires s = fire_offer_timer s.offer_pending_timer s

-- Whether `spawnWorker` and the post of 'init' do not throw.
pub record Spawn : Type 0 where
  pub spawned : Bool
  pub posted : Bool

-- The runtime gives each worker a new number.
unfoldable pub start_worker : Spawn → Offer → Option String → State → State
unfolding decline_and_reset emit
start_worker sp o none s = decline_and_reset o.tid none s
start_worker sp o (some dir) s =
    if not sp.spawned
    then decline_and_reset o.tid none s
    else if not sp.posted
    then decline_and_reset o.tid (some s.next_worker) (record s { next_worker = s.next_worker + 1 })
    else emit (post s.next_worker (init o.tid o.size))
        (record s { accepting = some (for_ready o s.next_worker); next_worker = s.next_worker + 1 })

unfoldable pub accept_pending : Spawn → Option Offer → State → State
unfolding start_worker
accept_pending sp none s = s
accept_pending sp (some o) s =
    if is_some s.accepting then s else start_worker sp o s.current_opaque_dir s

-- `acceptOffer` up to its first wait; `acceptInFlight` is that `accepting` is set.
unfoldable pub accept_offer : Spawn → State → State
unfolding accept_pending
accept_offer sp s = accept_pending sp (pending_of s.incoming_active) s

-- `incomingActive.value === state`
abbrev pub is_current : Offer → Option Offer → Bool
is_current o none = false
is_current o (some current) = current.serial == o.serial

unfoldable pub abandon : Worker → Offer → State → State
unfolding emit
abandon w o s = emit (cleanup_opfs o.tid) (emit (terminate w) s)

-- After `workerReady`.
unfoldable pub worker_ready_known : Bool → Offer → Worker → State → State
unfolding abandon decline_and_reset emit
worker_ready_known ready o w s =
    if not (is_current o (pending_of s.incoming_active))
    then abandon w o (record s { accepting = none })
    else if not ready
    then decline_and_reset o.tid (some w) (record s { accepting = none })
    else emit (send_envelope (PlaintextEnvelope.file_accept o.tid))
        (record s { offer_pending_timer = none; accepting = some (for_sent o w) })

unfoldable pub new_receiving : Offer → Worker → Receiving
new_receiving o w = record {
  tid = o.tid;
  name = o.name;
  size = o.size;
  expected_size = o.size;
  next_expected_seq = 0;
  network_received_bytes = 0;
  bytes_written = 0;
  receive_credit = recv_initial_credit;
  pending_chunk_queue = [];
  sender_sha256 = none;
  finalize_requested = false;
  worker = w;
}

-- After FILE_ACCEPT was sent, or was not.
unfoldable pub accept_sent : Bool → Offer → Worker → State → State
unfolding abandon emit new_receiving
accept_sent sent o w s =
    if not (is_current o (pending_of s.incoming_active))
    then abandon w o (record s { accepting = none })
    else if not sent
    then emit (terminate w) (record s { accepting = none; offer_pending_timer = some o.tid })
    else record s {
      accepting = none;
      incoming_active = some (receiving (new_receiving o w));
      receive_stall_timer = some o.tid;
    }

-- A wait of `runAcceptOffer` ends, with what it gave.
unfoldable pub continue_accept : Bool → Option Accepting → State → State
unfolding worker_ready_known accept_sent
continue_accept answer none s = s
continue_accept answer (some (for_ready o w)) s = worker_ready_known answer o w s
continue_accept answer (some (for_sent o w)) s = accept_sent answer o w s
