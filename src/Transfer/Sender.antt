-- ===== src/Transfer/Sender.antt =====
-- The state of createFileSender (client/src/domain/file-send.ts) with the signals of file-state.ts, and
-- its small operations. What the functions ask of others is in `out`, oldest first.
pub mod Loop
pub mod Start
pub mod Drain
pub mod Examples
use unseen_fyi.Prelude.{
  ℕ, zero, suc, ◌+◌, ◌*◌, ◌/◌, Bool, true, false, not, ◌&&◌, Option, none, some, String, List, [],
  ◌∷◌, ◌++◌, ◌==◌, if◌then◌else◌,
}
use unseen_fyi.Prelude.Dict.{Dict, set}
use unseen_fyi.Prelude.Eq.{string_eq}
use unseen_fyi.Prelude.Result.{Result, ok, err}
use unseen_fyi.Wire.Bytes.{Bytes}
use unseen_fyi.Wire.Envelope.{
  PlaintextEnvelope, FileCancelReason, user_aborted, FileCancelSide, sender,
}
use unseen_fyi.Client.MessageLog.{SystemEventKind, file_transfer_failed, file_transfer_cancelled}
use unseen_fyi.Transfer.Chunks.{to_hex}

abbrev pub Worker : Type 0
Worker = ℕ

-- A file of the browser; `id` tells files apart.
pub record File : Type 0 where
  pub id : ℕ
  pub name : String
  pub size : ℕ

pub record PendingChunk : Type 0 where
  pub seq : ℕ
  pub payload : Bytes

-- What the offer and the phases have in common.
pub record Described : Type 0 where
  pub tid : String
  pub name : String
  pub size : ℕ

pub data TransferState : Type 0 where
  offered : Described → File → TransferState
  sending : Described → ℕ → Worker → TransferState
  verifying : Described → TransferState

pub record SentFile : Type 0 where
  pub file : File
  pub name : String
  pub size : ℕ

pub data Effect : Type 0 where
  send_envelope : PlaintextEnvelope → Effect
  send_chunk : PendingChunk → Effect
  system_event : SystemEventKind → Effect
  file_message : String → Effect
  post_init : Worker → String → Effect
  post_pull post_abort terminate : Worker → Effect
  attachment_changed : Effect

pub record State : Type 0 where
  pub transfer_active : Option TransferState
  pub is_incoming : Bool
  pub attachment_map : Dict String SentFile
  pub pending_send_queue : List PendingChunk
  pub active_worker : Option Worker
  pub send_loop_running : Bool
  pub worker_final_received : Bool
  pub pending_sha256_hex : Option String
  pub sender_file_ref : Option File
  pub last_send_notify_percent : Option ℕ
  pub next_worker : ℕ
  pub out : List Effect

unfoldable pub emit : Effect → State → State
emit e s = record s { out = s.out ++ e ∷ [] }

unfoldable pub reset_local : State → State
reset_local s = record s {
  pending_send_queue = [];
  active_worker = none;
  send_loop_running = false;
  worker_final_received = false;
  pending_sha256_hex = none;
  sender_file_ref = none;
  last_send_notify_percent = none;
}

-- transferActive.value = null; resetLocal()
unfoldable pub drop_transfer : State → State
unfolding reset_local
drop_transfer s = reset_local (record s { transfer_active = none })

unfoldable pub abort_target : Option Worker → Option Worker → State → State
unfolding emit
abort_target (some worker) active s = emit (post_abort worker) s
abort_target none (some worker) s = emit (post_abort worker) s
abort_target none none s = s

unfoldable pub finish_with_event : SystemEventKind → Option Worker → State → State
unfolding abort_target drop_transfer emit
finish_with_event event worker s =
    emit (system_event event) (drop_transfer (abort_target worker s.active_worker s))

unfoldable pub send_cancel : String → FileCancelReason → State → State
unfolding emit
send_cancel tid reason s = emit (send_envelope (PlaintextEnvelope.file_cancel tid sender reason)) s

abbrev pub described : TransferState → Described
described (offered d file) = d
described (sending d sent worker) = d
described (verifying d) = d

unfoldable pub fail_cancelled : String → Worker → State → State
unfolding send_cancel finish_with_event
fail_cancelled tid worker s =
    finish_with_event file_transfer_failed (some worker) (send_cancel tid user_aborted s)

abbrev pub same_worker : Option Worker → Worker → Bool
same_worker none worker = false
same_worker (some active) worker = active == worker

unfoldable pub fatal_of : Worker → Option TransferState → State → State
unfolding fail_cancelled
fatal_of worker none s = s
fatal_of worker (some current) s =
    if same_worker s.active_worker worker
    then fail_cancelled (described current).tid worker s
    else s

unfoldable pub handle_worker_fatal : Worker → State → State
unfolding fatal_of
handle_worker_fatal worker s = fatal_of worker s.transfer_active s

-- The file is the sender's own attachment once the receiver has confirmed it, or has not objected.
unfoldable pub keep_attachment : Described → Option File → State → State
unfolding set emit
keep_attachment d none s = s
keep_attachment d (some file) s = emit attachment_changed (record s {
  attachment_map =
      set s.attachment_map d.tid (record { file = file; name = d.name; size = d.size });
})

unfoldable pub succeed_of : Described → Option TransferState → State → State
unfolding keep_attachment drop_transfer
succeed_of d none s = s
succeed_of d (some (offered e file)) s = s
succeed_of d (some (sending e sent worker)) s = s
succeed_of d (some (verifying e)) s =
    if string_eq.beq e.tid d.tid then keep_attachment d s.sender_file_ref (drop_transfer s) else s

unfoldable pub finalize_verifying_as_success : Described → State → State
unfolding succeed_of
finalize_verifying_as_success d s = succeed_of d s.transfer_active s

-- At most 16 draws of random bytes, until one is not all zero.
unfoldable pub all_zero : Bytes → Bool
all_zero [] = true
all_zero (b ∷ bs) = (b == 0) && all_zero bs

unfoldable pub generate_tid_hex : ℕ → (ℕ → Bytes) → Result String
unfolding all_zero to_hex
generate_tid_hex zero draws = err "tid generation exhausted"
generate_tid_hex (suc attempts) draws =
    let later = generate_tid_hex attempts draws in
    if not (all_zero (draws attempts)) then ok (to_hex (draws attempts)) else later
