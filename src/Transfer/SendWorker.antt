-- ===== src/Transfer/SendWorker.antt =====
-- The send worker (client/src/workers/file-send-worker.ts): it reads the file, cuts it, and posts a
-- chunk for each credit. `digest` is that of the checksum over what it was fed: a parameter. reader.read
-- and the digest are taken not to throw.
pub mod Order
pub mod Schedule
pub mod Examples
use unseen_fyi.Prelude.{
  ℕ, zero, suc, ◌+◌, ◌-◌, Bool, true, false, not, ◌&&◌, ◌||◌, Option, none, some, String, List, [],
  ◌∷◌, ◌++◌, ltb, ◌==◌, if◌then◌else◌,
}
use unseen_fyi.Wire.Bytes.{Bytes}
use unseen_fyi.Transfer.Chunks.{build_chunk_plaintext, consume_into_chunks}

pub data WorkerOut : Type 0 where
  ready closed : WorkerOut
  plaintext_chunk : ℕ → Bytes → WorkerOut
  final : String → WorkerOut

-- Where `runPipeline` is: it waits for a read, or for credit with these pieces left, of which the
-- flag says whether they are the last; or it has ended.
pub data Phase : Type 0 where
  idle reading ended : Phase
  emitting : List Bytes → Bool → Phase

pub record WorkerState : Type 0 where
  pub initialised : Bool
  pub phase : Phase
  pub aborted : Bool
  pub credit : ℕ
  pub seq : ℕ
  pub tid : Bytes
  pub hashed : Bytes
  pub pending_tail : Bytes
  pub out : List WorkerOut

unfoldable pub post : WorkerOut → WorkerState → WorkerState
post msg s = record s { out = s.out ++ msg ∷ [] }

-- `emitPiece` once there is credit.
unfoldable pub emit_piece : Bytes → WorkerState → WorkerState
unfolding post
emit_piece piece s =
    post (plaintext_chunk s.seq (build_chunk_plaintext s.tid s.seq piece))
      (record s { hashed = s.hashed ++ piece; credit = s.credit - 1; seq = s.seq + 1 })

-- runInit after `runPipeline`: `shutdown`, which sets the flag, and 'closed'.
unfoldable pub end_pipeline : WorkerState → WorkerState
unfolding post
end_pipeline s = record (post closed s) { phase = ended; aborted = true }

abbrev pub initial_state : WorkerState
initial_state = record {
  initialised = false;
  phase = idle;
  aborted = false;
  credit = 0;
  seq = 0;
  tid = [];
  hashed = [];
  pending_tail = [];
  out = [];
}

unfoldable pub on_init : Bytes → ℕ → WorkerState → WorkerState
unfolding post end_pipeline
on_init tid initial_credit s =
    let started : WorkerState = record s {
      initialised = true;
      tid = tid;
      credit = initial_credit;
      seq = 0;
      phase = reading;
      out = s.out ++ ready ∷ [];
    } in
    if s.initialised then s else if s.aborted then end_pipeline started else started

module _ (digest : Bytes → String) where
  unfoldable pub pieces_done : Bool → WorkerState → WorkerState
  unfolding end_pipeline post
  pieces_done true s = end_pipeline (post (final (digest s.hashed)) s)
  pieces_done false s = record s { phase = reading }

  -- The loop over the pieces, as far as the credit goes. After an abort the piece that waited is
  -- dropped; if none follows it the loop is over, else the pipeline returns.
  unfoldable pub emit_pieces : List Bytes → Bool → WorkerState → WorkerState
  unfolding emit_piece pieces_done
  emit_pieces [] is_eof s = pieces_done is_eof s
  emit_pieces (p ∷ ps) is_eof s =
      let rest = emit_pieces ps is_eof (emit_piece p s) in
      if ltb 0 s.credit then rest else record s { phase = emitting (p ∷ ps) is_eof }

  unfoldable pub after_abort : Phase → WorkerState → WorkerState
  unfolding pieces_done end_pipeline
  after_abort (emitting (p ∷ []) true) s = pieces_done true s
  after_abort (emitting ps is_eof) s = end_pipeline s
  after_abort reading s = end_pipeline s
  after_abort idle s = s
  after_abort ended s = s

  -- A promise of `waitForCredit` is resolved, if one waits.
  unfoldable pub pulled : Phase → WorkerState → WorkerState
  unfolding emit_pieces
  pulled (emitting ps is_eof) s = emit_pieces ps is_eof s
  pulled reading s = s
  pulled idle s = s
  pulled ended s = s

  unfoldable pub on_pull : WorkerState → WorkerState
  unfolding pulled
  on_pull s = pulled s.phase (record s { credit = s.credit + 1 })

  unfoldable pub on_abort : WorkerState → WorkerState
  unfolding after_abort
  on_abort s = after_abort s.phase (record s { aborted = true })

  unfoldable pub emit_read : List Bytes × Bytes → Bool → WorkerState → WorkerState
  unfolding emit_pieces
  emit_read (pieces, pending_tail) is_eof s =
      emit_pieces pieces is_eof (record s { pending_tail = pending_tail })

  -- What reader.read gives: a value, or the end.
  unfoldable pub has_read : Option Bytes → WorkerState → WorkerState
  unfolding emit_read consume_into_chunks
  has_read (some value) s = emit_read (consume_into_chunks s.pending_tail value false) false s
  has_read none s = emit_read (consume_into_chunks s.pending_tail [] true) true s
