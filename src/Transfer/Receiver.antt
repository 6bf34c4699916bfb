-- ===== src/Transfer/Receiver.antt =====
-- The state of createFileReceiver (client/src/domain/file-receive.ts) and its small operations. The
-- signals of file-state.ts are part of it. What the functions ask of others is in `out`, oldest first.
-- The receive worker's postMessage of 'finalize' and 'abort' and the other calls without a catch are
-- taken not to throw.
pub mod Arrival
pub mod Acceptance
pub mod Ending
pub mod Events
pub mod Invariant
pub mod FailedPost
pub mod Passed
pub mod Honest
use unseen_fyi.Prelude.{
  ℕ, ◌+◌, ◌*◌, ◌/◌, Bool, true, false, not, ◌&&◌, ◌||◌, Option, none, some, String, List, [], ◌∷◌,
  ◌++◌, length, ltb, leb, ◌==◌, is_some, if◌then◌else◌,
}
use unseen_fyi.Prelude.Dict.{Dict, get, set}
use unseen_fyi.Prelude.Eq.{string_eq}
use unseen_fyi.Wire.Bytes.{Bytes}
use unseen_fyi.Wire.Envelope.{
  PlaintextEnvelope, FileDeclineReason, too_large, user_rejected, unsupported, FileCancelReason,
  user_aborted, integrity_failure, session_rekey, FileCancelSide, receiver,
}
use unseen_fyi.Client.MessageLog.{
  SystemEventKind, file_transfer_cancelled, file_transfer_failed, file_session_cap_reached,
}

abbrev pub recv_initial_credit : ℕ
recv_initial_credit = 4

abbrev pub recv_pending_hard_cap_chunks : ℕ
recv_pending_hard_cap_chunks = 32

abbrev pub progress_min_interval_ms : ℕ
progress_min_interval_ms = 1000

abbrev pub progress_min_bytes : ℕ
progress_min_bytes = 1_048_576

-- shared/src/limits.ts
abbrev pub max_file_size_bytes : ℕ
max_file_size_bytes = 104_857_600

abbrev pub session_receive_cap_bytes : ℕ
session_receive_cap_bytes = 524_288_000

abbrev pub Worker : Type 0
Worker = ℕ

pub record Chunk : Type 0 where
  pub seq : ℕ
  pub payload : Bytes

-- `serial` tells apart the objects that were in turn the value of `incomingActive`.
pub record Offer : Type 0 where
  pub serial : ℕ
  pub tid : String
  pub name : String
  pub size : ℕ

pub record Receiving : Type 0 where
  pub tid : String
  pub name : String
  pub size : ℕ
  pub expected_size : ℕ
  pub next_expected_seq : ℕ
  pub network_received_bytes : ℕ
  pub bytes_written : ℕ
  pub receive_credit : ℕ
  pub pending_chunk_queue : List Chunk
  pub sender_sha256 : Option String
  pub finalize_requested : Bool
  pub worker : Worker

pub data IncomingState : Type 0 where
  offer_pending : Offer → IncomingState
  receiving : Receiving → IncomingState

-- An entry of `attachmentMap` that a transfer puts there: from OPFS, with the worker's file handle.
pub record Attachment : Type 0 where
  pub name : String
  pub size : ℕ

-- The messages to the worker.
pub data WorkerIn : Type 0 where
  init : String → ℕ → WorkerIn
  chunk : ℕ → Bytes → WorkerIn
  finalize abort : WorkerIn

pub data Effect : Type 0 where
  send_envelope : PlaintextEnvelope → Effect
  system_event : SystemEventKind → Effect
  file_message : String → Effect
  post : Worker → WorkerIn → Effect
  terminate : Worker → Effect
  cleanup_opfs : String → Effect
  attachment_changed : Effect

-- Where `runAcceptOffer` waits, with the offer that it took up.
pub data Accepting : Type 0 where
  for_ready for_sent : Offer → Worker → Accepting

-- `transfer_active` is whether an outgoing transfer is under way; a timer that is armed keeps the id
-- that its callback compares; `failing` counts the calls of handleWorkerDone that wait for cleanupOpfs.
pub record State : Type 0 where
  pub incoming_active : Option IncomingState
  pub transfer_active : Bool
  pub attachment_map : Dict String Attachment
  pub session_received_bytes : ℕ
  pub file_transfer_supported : Bool
  pub file_transfer_ready : Bool
  pub current_opaque_dir : Option String
  pub session_cap_event_fired : Bool
  pub last_progress_at : ℕ
  pub last_progress_bytes : ℕ
  pub last_receive_notify_percent : Option ℕ
  pub offer_pending_timer : Option String
  pub receive_stall_timer : Option String
  pub accepting : Option Accepting
  pub failing : ℕ
  pub next_serial : ℕ
  pub next_worker : ℕ
  pub out : List Effect

unfoldable pub emit : Effect → State → State
emit e s = record s { out = s.out ++ e ∷ [] }

unfoldable pub reset_transfer_locals : State → State
reset_transfer_locals s = record s {
  last_progress_at = 0;
  last_progress_bytes = 0;
  last_receive_notify_percent = none;
  offer_pending_timer = none;
  receive_stall_timer = none;
}

-- incomingActive.value = null; resetTransferLocals()
unfoldable pub drop_incoming : State → State
unfolding reset_transfer_locals
drop_incoming s = reset_transfer_locals (record s { incoming_active = none })

unfoldable pub finish_transfer : SystemEventKind → State → State
unfolding drop_incoming emit
finish_transfer event s = emit (system_event event) (drop_incoming s)

unfoldable pub send_cancel : String → FileCancelReason → State → State
unfolding emit
send_cancel tid reason s =
    emit (send_envelope (PlaintextEnvelope.file_cancel tid receiver reason)) s

unfoldable pub integrity_failure_abort : Receiving → State → State
unfolding send_cancel emit finish_transfer
integrity_failure_abort r s =
    finish_transfer file_transfer_failed (
      emit (cleanup_opfs r.tid)
        (emit (post r.worker abort) (send_cancel r.tid integrity_failure s)))

unfoldable pub send_decline : String → FileDeclineReason → State → State
unfolding emit
send_decline tid reason s = emit (send_envelope (PlaintextEnvelope.file_decline tid reason)) s

abbrev pub terminate_if : Option Worker → State → State
terminate_if none s = s
terminate_if (some worker) s = record s { out = s.out ++ terminate worker ∷ [] }

unfoldable pub decline_and_reset : String → Option Worker → State → State
unfolding send_decline drop_incoming
decline_and_reset tid worker s =
    drop_incoming (send_decline tid unsupported (terminate_if worker s))

-- The percentage is floored; how the program's division rounds only decides when the view is told.
unfoldable pub percent_of : Receiving → ℕ
percent_of r = if r.expected_size == 0 then 100 else r.bytes_written * 100 / r.expected_size

abbrev pub same_percent : Option ℕ → ℕ → Bool
same_percent none percent = false
same_percent (some last) percent = percent == last

unfoldable pub notify_receive_progress : Receiving → State → State
unfolding percent_of
notify_receive_progress r s =
    if same_percent s.last_receive_notify_percent (percent_of r) then s else record s {
      last_receive_notify_percent = some (percent_of r);
      incoming_active = some (receiving r);
    }

-- What is written to the object that `incomingActive` holds.
abbrev pub put : Receiving → State → State
put r s = record s { incoming_active = some (receiving r) }

abbrev pub receiving_of : Option IncomingState → Option Receiving
receiving_of (some (receiving r)) = some r
receiving_of _ = none

unfoldable pub get_receiving_state : State → Option Receiving
get_receiving_state s = receiving_of s.incoming_active

unfoldable pub is_receiving : State → Bool
unfolding get_receiving_state
is_receiving s = is_some (get_receiving_state s)
