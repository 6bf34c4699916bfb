-- ===== src/Transfer/Receiver/Invariant/Written.antt =====
-- The worker's answers keep the invariant of the receiver.
use unseen_fyi.Prelude.{
  ℕ, suc, ◌+◌, ◌-◌, ◌≤◌, ◌≡◌, refl, sym, ap, ◌∙◌, subst, Bool, false, not, Option, none, some,
  String, List, [], ◌∷◌, ◌++◌, length, min, ltb, arith,
}
use unseen_fyi.Prelude.Dict.{set}
use unseen_fyi.Prelude.Eq.{string_eq}
use unseen_fyi.Wire.Envelope.{PlaintextEnvelope, integrity_failure}
use unseen_fyi.Transfer.Receiver.{
  Worker, Chunk, Receiving, chunk, Effect, post, State, emit, get_receiving_state,
  reset_transfer_locals, attachment_changed, send_envelope, cleanup_opfs, drop_incoming,
  session_receive_cap_bytes,
}
use unseen_fyi.Transfer.Receiver.Arrival.{
  post_chunk_to_worker, post_next, acknowledged, handle_worker_written, Done, is_intact,
  handle_worker_done, WorkerOut, ready, closed, short_write, fatal, written, done, handle_from,
  handle_worker_message, complete_of, dispatch_complete,
}
use unseen_fyi.Transfer.Receiver.Invariant.{
  Inv, SizeOk, upto, Numbered, posted, ReceivingOk, emit-Inv,
}
use unseen_fyi.Transfer.Receiver.Invariant.Ends.{
  Inv-if, integrity_failure_abort-Inv, send_cancel-Inv, from_worker-Inv,
}
use unseen_fyi.Transfer.Receiver.Invariant.Holding.{
  Holding, not_accepting, get_receiving_state-Holding, posted-own, put-Holding, post-Holding,
  maybe_send_progress-Holding,
}
use unseen_fyi.Transfer.Receiver.Invariant.Arrivals.{settle-Inv, maybe_finalize-Holding}

acknowledged-ReceivingOk :
    (bytes : ℕ) (r : Receiving) (out : List Effect)
    → length r.pending_chunk_queue ≡ 0
    → ReceivingOk r out
    → ReceivingOk (acknowledged bytes r) out
unfolding acknowledged
acknowledged-ReceivingOk bytes r out e h = record {
  sized = h.sized;
  counted = h.counted;
  in_range = h.in_range;
  short = h.short;
  queued = h.queued;
  no_credit = λ lt. ground arith;
  numbered = h.numbered;
  in_order = h.in_order;
  complete = h.complete;
  final = h.final;
}

-- The chunk at the queue's head is the next one for the worker.
shifted-ReceivingOk :
    (bytes : ℕ) (r : Receiving) (c : Chunk) (cs : List Chunk) (out : List Effect)
    → r.pending_chunk_queue ≡ c ∷ cs
    → ReceivingOk r out
    → ReceivingOk
        (record (acknowledged bytes r) {
          pending_chunk_queue = cs;
          receive_credit = r.receive_credit + 1 - 1;
        })
        (out ++ post r.worker (chunk c.seq c.payload) ∷ [])
unfolding acknowledged
shifted-ReceivingOk bytes r c cs out e h =
    let count : length r.pending_chunk_queue ≡ suc (length cs) = ap length e in
    let up : suc (length cs) ≤ r.next_expected_seq =
      subst (λ n. n ≤ r.next_expected_seq) count h.queued in
    let next : r.next_expected_seq - length cs ≡ suc (r.next_expected_seq - suc (length cs)) =
      back r.next_expected_seq (length cs) up in
    let (here, after) : Numbered (r.next_expected_seq - suc (length cs)) (c ∷ cs) =
      subst (λ n. Numbered (r.next_expected_seq - n) (c ∷ cs)) count
        (subst (λ l. Numbered (r.next_expected_seq - length r.pending_chunk_queue) l) e
          h.numbered) in
    let before : posted r.worker out ≡ upto (r.next_expected_seq - suc (length cs)) =
      subst (λ n. posted r.worker out ≡ upto (r.next_expected_seq - n)) count h.in_order in
    record {
      sized = h.sized;
      counted = h.counted;
      in_range = h.in_range;
      short = shorter (length cs) (length r.pending_chunk_queue) count h.short;
      queued = omega arith;
      no_credit = λ lt. spent r.receive_credit (h.no_credit (omega arith));
      numbered = subst (λ n. Numbered n cs) (sym next) after;
      in_order =
          posted-own r.worker c.seq c.payload out
          ∙ ap (λ l. l ++ c.seq ∷ []) before
          ∙ ap (λ n. upto (r.next_expected_seq - suc (length cs)) ++ n ∷ []) here
          ∙ ap upto (sym next);
      complete = h.complete;
      final = h.final;
    }
  where
    back : (n k : ℕ) → suc k ≤ n → n - k ≡ suc (n - suc k)
    back n k h = omega arith

    shorter : (k n : ℕ) → n ≡ suc k → n ≤ 32 → k ≤ 32
    shorter k n e h = omega arith

    spent : (n : ℕ) → n ≡ 0 → n + 1 - 1 ≡ 0
    spent n e = omega arith

post_next-Holding :
    (bytes : ℕ) (queue : List Chunk) (r : Receiving) (s : State)
    → r.pending_chunk_queue ≡ queue
    → Holding r s
    → Holding
        (post_next false queue (acknowledged bytes r) s).0
        (post_next false queue (acknowledged bytes r) s).1
unfolding post_next post_chunk_to_worker acknowledged
post_next-Holding bytes [] r s e h =
    let (_, _, k) = h.holds.parts.current in
    put-Holding r (acknowledged bytes r) s h refl refl
      (acknowledged-ReceivingOk bytes r s.out (ap length e) k)
post_next-Holding bytes (c ∷ cs) r s e h =
    let (_, _, k) = h.holds.parts.current in
    post-Holding r _ c.seq c.payload s h refl refl (shifted-ReceivingOk bytes r c cs s.out e k)

handle_worker_written-Inv :
    (now bytes : ℕ) (r : Receiving) (s : State)
    → Holding r s
    → Inv (handle_worker_written false now bytes r s)
unfolding handle_worker_written acknowledged
handle_worker_written-Inv now bytes r s h = settle-Inv _ _ (
    maybe_finalize-Holding _ _ (
      maybe_send_progress-Holding now _ _
        (post_next-Holding bytes r.pending_chunk_queue r s refl h)))

-- The file is now one of those received, which still fit the session's cap.
kept-Inv :
    (r : Receiving) (files : _) (s : State)
    → Holding r s
    → Inv (
        drop_incoming (record s {
          attachment_map = files;
          session_received_bytes = s.session_received_bytes + r.expected_size;
        }))
unfolding drop_incoming reset_transfer_locals
kept-Inv r files s h =
    let (fits, _, ok) = h.holds.parts.current in
    record {
      parts = record {
        capped = still s.session_received_bytes r.size r.expected_size fits ok.sized;
        current = tt;
        taken_up =
            not_accepting r s.accepting _ _ _ h.holds.parts.taken_up none s.next_serial
              s.next_worker s.out;
        unused = h.holds.parts.unused;
      };
    }
  where
    still :
        (session size expected : ℕ)
        → SizeOk session size
        → expected ≡ size
        → session + expected ≤ session_receive_cap_bytes
    still session size expected (_, _, fits) e = omega arith

handle_worker_done-Inv :
    (r : Receiving) (msg : Done) (s : State)
    → Holding r s
    → Inv s
    → Inv (handle_worker_done r msg s)
unfolding handle_worker_done emit drop_incoming reset_transfer_locals
handle_worker_done-Inv r msg s h k =
    Inv-if (not (is_intact r msg)) _ _
      (λ _. record {
        parts =
            (emit-Inv (cleanup_opfs r.tid) _ (λ v. refl)
              (send_cancel-Inv r.tid integrity_failure s k)).parts;
      })
      (λ _. record {
        parts =
            (emit-Inv (send_envelope (PlaintextEnvelope.file_complete_ack r.tid)) _ (λ v. refl)
              (emit-Inv attachment_changed _ (λ v. refl)
                (kept-Inv r
                  (set s.attachment_map r.tid (record { name = r.name; size = r.expected_size })) s
                  h))).parts;
      })

handle_from-Inv :
    (throws : Bool) (now : ℕ) (msg : WorkerOut) (r : Receiving) (s : State)
    → throws ≡ false
    → Holding r s
    → Inv s
    → Inv (handle_from throws now msg r s)
unfolding handle_from
handle_from-Inv throws now ready r s e h k = k
handle_from-Inv throws now closed r s e h k = k
handle_from-Inv throws now short_write r s e h k = integrity_failure_abort-Inv r s k
handle_from-Inv throws now fatal r s e h k = integrity_failure_abort-Inv r s k
handle_from-Inv throws now (done msg) r s e h k = handle_worker_done-Inv r msg s h k
handle_from-Inv throws now (written seq bytes) r s e h k =
    subst (λ b. Inv (handle_worker_written b now bytes r s)) (sym e)
      (handle_worker_written-Inv now bytes r s h)

pub handle_worker_message-Inv :
    (now : ℕ) (msg : WorkerOut) (w : Worker) (s : State)
    → Inv s
    → Inv (handle_worker_message false now msg w s)
unfolding handle_worker_message
handle_worker_message-Inv now msg w s h =
    from_worker-Inv _ w (get_receiving_state s) s
      (λ r e. handle_from-Inv false now msg r s refl (get_receiving_state-Holding r s e h) h) h

complete-ReceivingOk :
    (r : Receiving) (sha : String) (out : List Effect)
    → r.expected_size ≤ r.network_received_bytes
    → ReceivingOk r out
    → ReceivingOk (record r { sender_sha256 = some sha }) out
complete-ReceivingOk r sha out le h = record {
  sized = h.sized;
  counted = h.counted;
  in_range = h.in_range;
  short = h.short;
  queued = h.queued;
  no_credit = h.no_credit;
  numbered = h.numbered;
  in_order = h.in_order;
  complete = λ _. whole r.network_received_bytes _ r.size r.expected_size h.counted h.sized le;
  final = λ _. refl;
}
  where
    whole : (n a size expected : ℕ) → n ≡ min a size → expected ≡ size → expected ≤ n → n ≡ size
    whole n a size expected e k le = ground arith

complete_of-Inv :
    (tid sha : String) (o : Option Receiving) (s : State)
    → get_receiving_state s ≡ o
    → Inv s
    → Inv (complete_of tid sha o s)
unfolding complete_of
complete_of-Inv tid sha none s e h = h
complete_of-Inv tid sha (some r) s e h =
    let k = get_receiving_state-Holding r s e h in
    let (_, _, ok) = k.holds.parts.current in
    Inv-if (not (string_eq.beq r.tid tid)) _ _ (λ _. h)
      (λ _.
        Inv-if (ltb r.network_received_bytes r.expected_size) _ _
          (λ _. integrity_failure_abort-Inv r s h)
          (λ all.
            (maybe_finalize-Holding _ s (
              put-Holding r (record r { sender_sha256 = some sha }) s k refl refl
                (complete-ReceivingOk r sha s.out
                  (reached r.network_received_bytes r.expected_size all) ok))).holds))
  where
    reached : (n size : ℕ) → ltb n size ≡ false → size ≤ n
    reached n size e = ground arith

pub dispatch_complete-Inv :
    (tid sha : String) (s : State) → Inv s → Inv (dispatch_complete tid sha s)
unfolding dispatch_complete
dispatch_complete-Inv tid sha s h = complete_of-Inv tid sha _ s refl h
