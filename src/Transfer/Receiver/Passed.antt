-- ===== src/Transfer/Receiver/Passed.antt =====
-- What the receiver passes on: chunks with their contents, posted to the worker or still in the queue.
use mathlib.Core.List.{append_assoc, append-nil}
use unseen_fyi.Prelude.{
  ℕ, ◌+◌, ◌-◌, ◌<◌, ◌≡◌, refl, sym, ap, ◌∙◌, subst, Bool, true, false, none, some, List, [], ◌∷◌,
  ◌++◌, length, ltb, ◌==◌, arith, is_some, if◌then◌else◌,
}
use unseen_fyi.Transfer.Chunks.{ChunkPlaintext}
use unseen_fyi.Transfer.Receiver.{
  Worker, Chunk, Receiving, chunk, Effect, post, State, emit, put, get_receiving_state,
  is_receiving,
}
use unseen_fyi.Transfer.Receiver.Arrival.{post_chunk_to_worker, write_back, take_chunk}

abbrev pub chunk_for : Worker → Effect → List Chunk
chunk_for w (post v (chunk n b)) = if v == w then record { seq = n; payload = b } ∷ [] else []
chunk_for w _ = []

-- The chunks that were posted to a worker, the first one first.
abbrev pub chunks_for : Worker → List Effect → List Chunk
chunks_for w [] = []
chunks_for w (e ∷ es) = chunk_for w e ++ chunks_for w es

-- What the worker was posted, then what waits for it.
abbrev pub passed_on : Receiving → State → List Chunk
passed_on r s = chunks_for r.worker s.out ++ r.pending_chunk_queue

-- The transfer `r` still comes in, one chunk further.
pub record Took (c : Chunk) (r : Receiving) (s s' : State) : Type 0 where
  pub now : Receiving
  pub comes_in : get_receiving_state s' ≡ some now
  pub same_id : now.tid ≡ r.tid
  pub same_worker : now.worker ≡ r.worker
  pub next : now.next_expected_seq ≡ r.next_expected_seq + 1
  pub counted : now.network_received_bytes ≡ r.network_received_bytes + length c.payload
  pub passed : passed_on now s' ≡ passed_on r s ++ c ∷ []

chunks_for-append :
    (w : Worker) (es fs : List Effect)
    → chunks_for w (es ++ fs) ≡ chunks_for w es ++ chunks_for w fs
chunks_for-append w [] fs = refl
chunks_for-append w (e ∷ es) fs =
    ap (λ l. chunk_for w e ++ l) (chunks_for-append w es fs)
    ∙ sym (append_assoc (chunk_for w e) (chunks_for w es) (chunks_for w fs))

chunks_for-post :
    (w : Worker) (c : Chunk) (out : List Effect)
    → chunks_for w (out ++ post w (chunk c.seq c.payload) ∷ []) ≡ chunks_for w out ++ c ∷ []
chunks_for-post w c out =
    chunks_for-append w out (post w (chunk c.seq c.payload) ∷ [])
    ∙ ap (λ l. chunks_for w out ++ l) (own w c)
  where
    own : (w : Worker) (c : Chunk) → (if w == w then c ∷ [] else []) ++ [] ≡ c ∷ []
    own w c = ground arith

-- With credit nothing waits, and the chunk is posted.
posted-Took :
    (c : Chunk) (r : Receiving) (credit : ℕ) (s t : State)
    → t.out ≡ s.out
    → is_receiving t ≡ true
    → r.pending_chunk_queue ≡ []
    → Took c r s (
        write_back
          (record r {
            next_expected_seq = r.next_expected_seq + 1;
            network_received_bytes = r.network_received_bytes + length c.payload;
            receive_credit = credit;
          })
          (emit (post r.worker (chunk c.seq c.payload)) t))
unfolding write_back emit is_receiving get_receiving_state
posted-Took c r credit s t same held empty =
    let now : Receiving = record r {
      next_expected_seq = r.next_expected_seq + 1;
      network_received_bytes = r.network_received_bytes + length c.payload;
      receive_credit = credit;
    } in
    let sent : State = emit (post r.worker (chunk c.seq c.payload)) t in
    subst (λ b. Took c r s (if b then put now sent else sent)) (sym held)
      (record {
        now = now;
        comes_in = refl;
        same_id = refl;
        same_worker = refl;
        next = refl;
        counted = refl;
        passed =
            rw (empty, same)
              (append-nil
                  (chunks_for r.worker (s.out ++ post r.worker (chunk c.seq c.payload) ∷ []))
                ∙ chunks_for-post r.worker c s.out
                ∙ ap (λ l. l ++ c ∷ []) (sym (append-nil (chunks_for r.worker s.out))));
      })

queued-Took :
    (c : Chunk) (r : Receiving) (s t : State)
    → t.out ≡ s.out
    → Took c r s (
        put
          (record r {
            next_expected_seq = r.next_expected_seq + 1;
            network_received_bytes = r.network_received_bytes + length c.payload;
            pending_chunk_queue = r.pending_chunk_queue ++ c ∷ [];
          })
          t)
unfolding get_receiving_state
queued-Took c r s t same = record {
  now = record r {
    next_expected_seq = r.next_expected_seq + 1;
    network_received_bytes = r.network_received_bytes + length c.payload;
    pending_chunk_queue = r.pending_chunk_queue ++ c ∷ [];
  };
  comes_in = refl;
  same_id = refl;
  same_worker = refl;
  next = refl;
  counted = refl;
  passed =
      ap (λ out. chunks_for r.worker out ++ (r.pending_chunk_queue ++ c ∷ [])) same
      ∙ sym (append_assoc (chunks_for r.worker s.out) r.pending_chunk_queue (c ∷ []));
}

no_queue :
    (cs : List Chunk) (credit : ℕ) → (0 < length cs → credit ≡ 0) → ltb 0 credit ≡ true → cs ≡ []
no_queue [] credit h e = refl
no_queue (c ∷ cs) credit h e = ground arith

-- The first chunk stops a timer, and nothing else.
timer_off-out :
    (b : Bool) (s : State) → (if b then record s { receive_stall_timer = none } else s).out ≡ s.out
timer_off-out true s = refl
timer_off-out false s = refl

timer_off-held :
    (b : Bool) (r : Receiving) (s : State)
    → get_receiving_state s ≡ some r
    → is_receiving (if b then record s { receive_stall_timer = none } else s) ≡ true
unfolding is_receiving get_receiving_state
timer_off-held true r s e = ap is_some e
timer_off-held false r s e = ap is_some e

pub take_chunk-Took :
    (parsed : ChunkPlaintext) (r : Receiving) (s : State)
    → get_receiving_state s ≡ some r
    → (0 < length r.pending_chunk_queue → r.receive_credit ≡ 0)
    → Took (record { seq = parsed.seq; payload = parsed.payload }) r s (take_chunk false parsed r s)
unfolding take_chunk post_chunk_to_worker
take_chunk-Took parsed r s held waits =
    by_credit (ltb 0 r.receive_credit) _ _
      (λ credit.
        posted-Took (record { seq = parsed.seq; payload = parsed.payload }) r (r.receive_credit - 1)
          s _ (timer_off-out first s) (timer_off-held first r s held)
          (no_queue r.pending_chunk_queue r.receive_credit waits credit))
      (λ no_credit.
        queued-Took (record { seq = parsed.seq; payload = parsed.payload }) r s
          (if first then record s { receive_stall_timer = none } else s) (timer_off-out first s))
  where
    first : Bool
    first = parsed.seq == 0

    by_credit :
        (b : Bool) (x y : State)
        → (b ≡ true → Took (record { seq = parsed.seq; payload = parsed.payload }) r s x)
        → (b ≡ false → Took (record { seq = parsed.seq; payload = parsed.payload }) r s y)
        → Took (record { seq = parsed.seq; payload = parsed.payload }) r s (if b then x else y)
    by_credit true x y h k = h refl
    by_credit false x y h k = k refl
