-- ===== src/Transfer/Receiver/Invariant/Arrived.antt =====
-- A chunk that arrives keeps the invariant of the receiver.
use unseen_fyi.Prelude.{
  ℕ, ◌+◌, ◌<◌, ◌≡◌, refl, Bool, true, false, not, Option, none, some, length, ltb, leb, ◌==◌, arith,
  if◌then◌else◌,
}
use unseen_fyi.Prelude.Eq.{string_eq}
use unseen_fyi.Transfer.Chunks.{ChunkPlaintext}
use unseen_fyi.Transfer.Receiver.{
  Receiving, State, emit, get_receiving_state, is_receiving, recv_pending_hard_cap_chunks,
  integrity_failure_abort, finish_transfer, drop_incoming, reset_transfer_locals,
}
use unseen_fyi.Transfer.Receiver.Arrival.{
  post_chunk_to_worker, write_back, is_expected, take_chunk, receive_chunk,
}
use unseen_fyi.Transfer.Receiver.Invariant.{Inv}
use unseen_fyi.Transfer.Receiver.Invariant.Ends.{Inv-if, integrity_failure_abort-Inv}
use unseen_fyi.Transfer.Receiver.Invariant.Holding.{
  Holding, get_receiving_state-Holding, put-Holding, post-Holding,
}
use unseen_fyi.Transfer.Receiver.Invariant.Arrivals.{write_back-Inv}
use unseen_fyi.Transfer.Receiver.Invariant.Taken.{
  Expected, is_expected-Expected, posted-ReceivingOk, queued-ReceivingOk,
}

-- The stall timer's state is of no account.
stall-Holding :
    (b : Bool) (r : Receiving) (s : State)
    → Holding r s
    → Holding r (if b then record s { receive_stall_timer = none } else s)
unfolding is_receiving get_receiving_state
stall-Holding true r s h = record { holds = record { parts = h.holds.parts }; is_held = h.is_held }
stall-Holding false r s h = h

stall-Inv :
    (b : Bool) (s : State) → Inv s → Inv (if b then record s { receive_stall_timer = none } else s)
stall-Inv true s h = record { parts = h.parts }
stall-Inv false s h = h

integrity_failure_abort_ends :
    (r : Receiving) (s : State) → is_receiving (integrity_failure_abort r s) ≡ false
unfolding is_receiving get_receiving_state integrity_failure_abort finish_transfer drop_incoming
    reset_transfer_locals emit
integrity_failure_abort_ends r s = refl

aborted-Inv :
    (r old : Receiving) (s : State) → Inv s → Inv (write_back r (integrity_failure_abort old s))
unfolding write_back
aborted-Inv r old s h =
    Inv-if (is_receiving (integrity_failure_abort old s)) _ _
      (λ still. ground (arith, integrity_failure_abort_ends old s))
      (λ _. integrity_failure_abort-Inv old s h)

posted_chunk-Inv :
    (throws : Bool) (r : Receiving) (parsed : ChunkPlaintext) (s : State)
    → Expected r parsed
    → 0 < r.receive_credit
    → Holding r s
    → Inv s
    → let counted : Receiving = record r {
      next_expected_seq = r.next_expected_seq + 1;
      network_received_bytes = r.network_received_bytes + length parsed.payload;
    } in
      let result =
        post_chunk_to_worker throws
          (record { seq = parsed.seq; payload = parsed.payload })
          counted
          s in
      Inv (write_back result.0 result.1)
unfolding post_chunk_to_worker
posted_chunk-Inv true r parsed s e credit h k =
    let counted : Receiving = record r {
      next_expected_seq = r.next_expected_seq + 1;
      network_received_bytes = r.network_received_bytes + length parsed.payload;
    } in
    aborted-Inv counted counted s k
posted_chunk-Inv false r parsed s e credit h _ =
    let (_, _, k) = h.holds.parts.current in
    write_back-Inv _ _ (
      post-Holding r _ parsed.seq parsed.payload s h refl refl
        (posted-ReceivingOk r parsed s.out k e credit))

take_chunk-Inv :
    (throws : Bool) (r : Receiving) (parsed : ChunkPlaintext) (s : State)
    → Expected r parsed
    → length r.pending_chunk_queue < recv_pending_hard_cap_chunks
    → Holding r s
    → Inv s
    → Inv (take_chunk throws parsed r s)
unfolding take_chunk
take_chunk-Inv throws r parsed s e room h whole =
    let k = stall-Holding (parsed.seq == 0) r s h in
    let (_, _, ok) = k.holds.parts.current in
    Inv-if (ltb 0 r.receive_credit) _ _
      (λ credit.
        posted_chunk-Inv throws r parsed _ e (some_credit r.receive_credit credit) k
          (stall-Inv (parsed.seq == 0) s whole))
      (λ none_left.
        (put-Holding r _ _ k refl refl (
          queued-ReceivingOk r parsed _ ok e (record { seq = parsed.seq; payload = parsed.payload })
            refl (no_credit_left r.receive_credit none_left) room)).holds)
  where
    some_credit : (n : ℕ) → ltb 0 n ≡ true → 0 < n
    some_credit n e = ground arith

    no_credit_left : (n : ℕ) → ltb 0 n ≡ false → n ≡ 0
    no_credit_left n e = ground arith

pub receive_chunk-Inv :
    (throws : Bool) (parsed : ChunkPlaintext) (o : Option Receiving) (s : State)
    → get_receiving_state s ≡ o
    → Inv s
    → Inv (receive_chunk throws parsed o s)
unfolding receive_chunk
receive_chunk-Inv throws parsed none s e h = h
receive_chunk-Inv throws parsed (some r) s e h =
    Inv-if (not (string_eq.beq parsed.tid_hex r.tid)) _ _ (λ _. h)
      (λ _.
        Inv-if (not (is_expected r parsed)) _ _ (λ _. integrity_failure_abort-Inv r s h)
          (λ fits.
            Inv-if (leb recv_pending_hard_cap_chunks (length r.pending_chunk_queue)) _ _
              (λ _. integrity_failure_abort-Inv r s h)
              (λ room.
                take_chunk-Inv throws r parsed s (is_expected-Expected r parsed (is_so _ fits))
                  (below_cap _ room) (get_receiving_state-Holding r s e h) h)))
  where
    is_so : (b : Bool) → not b ≡ false → b ≡ true
    is_so true e = refl
    is_so false e = ground arith

    below_cap :
        (n : ℕ) → leb recv_pending_hard_cap_chunks n ≡ false → n < recv_pending_hard_cap_chunks
    below_cap n e = ground arith
