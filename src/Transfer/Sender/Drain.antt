-- ===== src/Transfer/Sender/Drain.antt =====
-- The send loop of file-send.ts when nothing fails any more: it sends what is queued and completes.
use mathlib.Core.List.{append_assoc}
use unseen_fyi.Prelude.{
  ℕ, zero, suc, ◌+◌, ◌-◌, ◌*◌, ◌/◌, ◌≤◌, ◌≡◌, refl, sym, ap, ◌∙◌, subst, true, false, none, some,
  String, List, [], ◌∷◌, ◌++◌, map, length, ltb, ◌==◌, arith, if◌then◌else◌,
}
use unseen_fyi.Prelude.Eq.{string_eq}
use unseen_fyi.Wire.Codes.{chunk_header_bytes}
use unseen_fyi.Wire.Envelope.{PlaintextEnvelope}
use unseen_fyi.Transfer.Sender.{
  Worker, PendingChunk, Described, sending, verifying, Effect, send_envelope, send_chunk,
  post_abort, State, emit,
}
use unseen_fyi.Transfer.Sender.Loop.{
  outgoing_buffer_soft_cap, is_still_sending_for, advance_of, advance_sent_bytes, drained_of,
  finalize_send_after_drain, Turn, ended, sleeps, waits, end_loop, no_chunk, next_chunk, open_turn,
  loop_turn, sent, after_pull, chunk_answered,
}

-- The loop goes on: the chunk was sent, or the sleep is over.
unfoldable pub goes_on : Worker → String → ℕ → Turn × State → Turn × State
unfolding chunk_answered loop_turn
goes_on worker tid buffered (waits c, s) = chunk_answered worker tid c false (some buffered) sent s
goes_on worker tid buffered (sleeps, s) = loop_turn worker tid (some buffered) s
goes_on worker tid buffered (ended, s) = (ended, s)

unfoldable pub rounds : ℕ → Worker → String → ℕ → Turn × State → Turn × State
unfolding goes_on
rounds zero worker tid buffered p = p
rounds (suc n) worker tid buffered p = rounds n worker tid buffered (goes_on worker tid buffered p)

-- A file is being sent, these chunks are left, and the worker has given the checksum.
abbrev pub draining : State → Described → ℕ → Worker → List PendingChunk → String → State
draining s d count active cs sha = record s {
  transfer_active = some (sending d count active);
  pending_send_queue = cs;
  worker_final_received = true;
  pending_sha256_hex = some sha;
}

-- What the loop sends, and how it leaves the state.
abbrev pub Completed :
    Worker → Described → List PendingChunk → String → List Effect → Turn × State → Type 0
Completed worker d cs sha out (turn, s) =
    (turn ≡ ended)
    × (s.transfer_active ≡ some (verifying d))
    × (s.pending_send_queue ≡ [])
    × (s.active_worker ≡ none)
    × (s.send_loop_running ≡ false)
    × (s.out
        ≡ out
          ++ (map send_chunk cs
              ++ send_envelope (PlaintextEnvelope.file_complete d.tid sha)
                ∷ post_abort worker
                ∷ []))

beq_same : (tid : String) → string_eq.beq tid tid ≡ true
beq_same tid = (string_eq.beq_iff tid tid).1 refl

not_full :
    (buffered : ℕ)
    → buffered ≤ outgoing_buffer_soft_cap
    → ltb outgoing_buffer_soft_cap buffered ≡ false
not_full buffered h = ground arith

taken_out :
    (worker : Worker) (buffered : ℕ) (s : State) (d : Described) (count : ℕ) (active : Worker)
    (c : PendingChunk) (cs : List PendingChunk) (sha : String)
    → buffered ≤ outgoing_buffer_soft_cap
    → loop_turn worker d.tid (some buffered) (draining s d count active (c ∷ cs) sha)
      ≡ (waits c, draining (record s { out = s.out ++ send_chunk c ∷ [] }) d count active cs sha)
unfolding loop_turn is_still_sending_for open_turn next_chunk emit
taken_out worker buffered s d count active c cs sha h =
    rw (beq_same d.tid, not_full buffered h) refl

-- The state after a chunk was sent.
abbrev counted : State → Described → ℕ → State
counted s d now = record s {
  last_send_notify_percent = some (if d.size == 0 then 100 else now * 100 / d.size);
}

advanced :
    (s : State) (d : Described) (count more : ℕ) (active : Worker) (cs : List PendingChunk)
    (sha : String)
    → advance_sent_bytes d.tid more (draining s d count active cs sha)
      ≡ draining (counted s d (count + more)) d (count + more) active cs sha
unfolding advance_sent_bytes advance_of
advanced s d count more active cs sha = rw (beq_same d.tid) refl

one_round :
    (worker : Worker) (buffered : ℕ) (s : State) (d : Described) (count : ℕ) (active : Worker)
    (c : PendingChunk) (cs : List PendingChunk) (sha : String)
    → buffered ≤ outgoing_buffer_soft_cap
    → let now : ℕ = count + (length c.payload - chunk_header_bytes) in
      goes_on worker d.tid buffered
        (loop_turn worker d.tid (some buffered) (draining s d count active (c ∷ cs) sha))
      ≡ loop_turn worker d.tid (some buffered) (
          draining
            (counted (record s { out = s.out ++ send_chunk c ∷ [] }) d now)
            d
            now
            active
            cs
            sha)
unfolding goes_on chunk_answered after_pull
one_round worker buffered s d count active c cs sha h =
    ap (goes_on worker d.tid buffered) (taken_out worker buffered s d count active c cs sha h)
    ∙ ap (loop_turn worker d.tid (some buffered)) (
        advanced (record s { out = s.out ++ send_chunk c ∷ [] }) d count
          (length c.payload - chunk_header_bytes) active cs sha)

last_round :
    (worker : Worker) (buffered : ℕ) (s : State) (d : Described) (count : ℕ) (active : Worker)
    (sha : String)
    → buffered ≤ outgoing_buffer_soft_cap
    → Completed worker d [] sha s.out
        (loop_turn worker d.tid (some buffered) (draining s d count active [] sha))
unfolding loop_turn is_still_sending_for open_turn next_chunk no_chunk end_loop
    finalize_send_after_drain drained_of emit
last_round worker buffered s d count active sha h =
    rw (beq_same d.tid, not_full buffered h) (refl, refl, refl, refl, refl, append_assoc s.out _ _)

Completed-after :
    (worker : Worker) (d : Described) (c : PendingChunk) (cs : List PendingChunk) (sha : String)
    (out : List Effect) (p : Turn × State)
    → Completed worker d cs sha (out ++ send_chunk c ∷ []) p
    → Completed worker d (c ∷ cs) sha out p
Completed-after worker d c cs sha out (turn, s) (a, b, e, f, g, h) =
    (a, b, e, f, g, h ∙ append_assoc out (send_chunk c ∷ []) _)

-- When the worker has given the checksum of the file that is being sent, each chunk that is still
-- queued is sent without a failure, and the socket stays open with no more buffered than the cap:
-- then after one round for each chunk the loop has ended, the queued chunks have been sent in order,
-- then FILE_COMPLETE with the checksum, the worker was told to stop, and the transfer is verifying.
pub rounds-Completed :
    (worker : Worker) (buffered : ℕ) (cs : List PendingChunk) (s : State) (d : Described)
    (count : ℕ) (active : Worker) (sha : String)
    → buffered ≤ outgoing_buffer_soft_cap
    → Completed worker d cs sha s.out (
        rounds
          (length cs)
          worker
          d.tid
          buffered
          (loop_turn worker d.tid (some buffered) (draining s d count active cs sha)))
unfolding rounds
rounds-Completed worker buffered [] s d count active sha h =
    last_round worker buffered s d count active sha h
rounds-Completed worker buffered (c ∷ cs) s d count active sha h =
    let now : ℕ = count + (length c.payload - chunk_header_bytes) in
    let s' : State = counted (record s { out = s.out ++ send_chunk c ∷ [] }) d now in
    let p : Turn × State =
      goes_on worker d.tid buffered
        (loop_turn worker d.tid (some buffered) (draining s d count active (c ∷ cs) sha)) in
    Completed-after worker d c cs sha s.out (rounds (length cs) worker d.tid buffered p) (
      subst
        (λ p.
          Completed worker d cs sha (s.out ++ send_chunk c ∷ [])
            (rounds (length cs) worker d.tid buffered p))
        (sym (one_round worker buffered s d count active c cs sha h))
        (rounds-Completed worker buffered cs s' d now active sha h))
