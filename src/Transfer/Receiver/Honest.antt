-- ===== src/Transfer/Receiver/Honest.antt =====
-- The pieces that the send worker cuts and the receiver's checks.
use unseen_fyi.Prelude.{
  ℕ, ◌≤◌, ◌<◌, ◌≡◌, refl, sym, ap, ◌∙◌, subst, Bool, true, false, not, ◌&&◌, some, String, List, [],
  length, leb, ◌==◌, get_elem?, arith,
}
use unseen_fyi.Prelude.Eq.{string_eq}
use unseen_fyi.Prelude.Result.{ok}
use unseen_fyi.Wire.Bytes.{Bytes}
use unseen_fyi.Channel.Receive.{accepted}
use unseen_fyi.Transfer.Chunks.{
  ChunkPlaintext, to_hex, compute_total_chunks, expected_chunk_len, build_chunk_plaintext,
  all_pieces,
}
use unseen_fyi.Transfer.Chunks.Cuts.{stream_bytes, all_pieces-Cuts, IsPiece, Cuts-IsPiece}
use unseen_fyi.Transfer.Chunks.Plaintext.{parse_chunk_plaintext-build}
use unseen_fyi.Transfer.Receiver.{
  Receiving, State, get_receiving_state, max_file_size_bytes, recv_pending_hard_cap_chunks,
}
use unseen_fyi.Transfer.Receiver.Passed.{Took, take_chunk-Took}
use unseen_fyi.Transfer.Receiver.Invariant.{Inv}
use unseen_fyi.Transfer.Receiver.Invariant.Holding.{get_receiving_state-Holding}
use unseen_fyi.Transfer.Receiver.Arrival.{
  is_expected, take_chunk, receive_chunk, dispatch_parsed, dispatch_decrypted,
}

is_expected-piece :
    (r : Receiving) (parsed : ChunkPlaintext) (file : Bytes)
    → parsed.seq ≡ r.next_expected_seq
    → length file ≡ r.expected_size
    → IsPiece file parsed.seq parsed.payload
    → is_expected r parsed ≡ true
unfolding is_expected IsPiece
is_expected-piece r parsed file here size (_, lt, len) =
    tests parsed.seq r.next_expected_seq (compute_total_chunks r.expected_size)
      (length parsed.payload) _ here (subst (λ n. parsed.seq < compute_total_chunks n) size lt)
      (len ∙ ap (λ n. expected_chunk_len n parsed.seq (compute_total_chunks n)) size)
  where
    tests :
        (seq next total len expected : ℕ)
        → seq ≡ next
        → seq < total
        → len ≡ expected
        → ((seq == next) && not (leb total seq) && (len == expected)) ≡ true
    tests seq next total len expected e lt k = ground arith

beq_same : (tid : String) → string_eq.beq tid tid ≡ true
beq_same tid = (string_eq.beq_iff tid tid).1 refl

receive_chunk-expected :
    (throws : Bool) (r : Receiving) (parsed : ChunkPlaintext) (s : State)
    → parsed.tid_hex ≡ r.tid
    → is_expected r parsed ≡ true
    → length r.pending_chunk_queue < recv_pending_hard_cap_chunks
    → receive_chunk throws parsed (some r) s ≡ take_chunk throws parsed r s
unfolding receive_chunk
receive_chunk-expected throws r parsed s same fits room =
    rw (same, beq_same r.tid, fits, under_cap (length r.pending_chunk_queue) room) refl
  where
    under_cap :
        (n : ℕ) → n < recv_pending_hard_cap_chunks → leb recv_pending_hard_cap_chunks n ≡ false
    under_cap n lt = ground arith

seq_is_uint32 :
    (seq size : ℕ) → seq < compute_total_chunks size → size ≤ max_file_size_bytes → seq < 4294967296
unfolding compute_total_chunks
seq_is_uint32 seq size lt le = omega arith

-- A piece of the file, as the send worker writes it, passes every test of the receiver.
dispatch_decrypted-take :
    (throws : Bool) (tid : Bytes) (reads : List Bytes) (p : Bytes) (counter : ℕ) (r : Receiving)
    (s : State)
    → length tid ≡ 8
    → to_hex tid ≡ r.tid
    → length (stream_bytes reads) ≡ r.expected_size
    → r.expected_size ≤ max_file_size_bytes
    → get_elem? (all_pieces [] reads) r.next_expected_seq ≡ some p
    → length r.pending_chunk_queue < recv_pending_hard_cap_chunks
    → get_receiving_state s ≡ some r
    → dispatch_decrypted throws
        (ok (accepted (build_chunk_plaintext tid r.next_expected_seq p) counter))
        s
      ≡ ok (
          take_chunk throws
            (record { tid_hex = r.tid; seq = r.next_expected_seq; payload = p })
            r
            s)
unfolding dispatch_decrypted dispatch_parsed IsPiece
dispatch_decrypted-take throws tid reads p counter r s eight same size small piece room now =
    let (cut, lt, len) : IsPiece (stream_bytes reads) r.next_expected_seq p =
      Cuts-IsPiece (all_pieces-Cuts reads) r.next_expected_seq p piece in
    let seq_lt =
      seq_is_uint32 r.next_expected_seq r.expected_size
        (subst (λ n. r.next_expected_seq < compute_total_chunks n) size lt) small in
    let parsed : ChunkPlaintext = record {
      tid_hex = r.tid;
      seq = r.next_expected_seq;
      payload = p;
    } in
    let fits = is_expected-piece r parsed (stream_bytes reads) refl size (cut, lt, len) in
    rw (parse_chunk_plaintext-build tid r.next_expected_seq p eight seq_lt, same, now)
      (ap ok (receive_chunk-expected throws r parsed s refl fits room))

-- When the receiver's invariant holds, the post to the worker does not throw, fewer than 32 chunks
-- wait, the file has the size of the offer, and the id has 8 bytes and is the transfer's: however the
-- file is read, the next piece that the send worker cuts, as it writes it, is taken. The transfer still
-- comes in, with the same id and worker, and expects the next number; the bytes of the piece are
-- counted; and the chunks that the worker was posted, with those that wait for it after them, are the
-- same as before, their contents included, and then this piece under its number.
pub dispatch_decrypted-piece :
    (tid : Bytes) (reads : List Bytes) (p : Bytes) (counter : ℕ) (r : Receiving) (s : State)
    → Inv s
    → length tid ≡ 8
    → to_hex tid ≡ r.tid
    → length (stream_bytes reads) ≡ r.expected_size
    → get_elem? (all_pieces [] reads) r.next_expected_seq ≡ some p
    → length r.pending_chunk_queue < recv_pending_hard_cap_chunks
    → get_receiving_state s ≡ some r
    → (s' : State) × (dispatch_decrypted false
          (ok (accepted (build_chunk_plaintext tid r.next_expected_seq p) counter))
          s
        ≡ ok s')
      × Took (record { seq = r.next_expected_seq; payload = p }) r s s'
dispatch_decrypted-piece tid reads p counter r s inv eight same size piece room now =
    let ((_, small, _), _, good) = (get_receiving_state-Holding r s now inv).holds.parts.current in
    let parsed : ChunkPlaintext = record {
      tid_hex = r.tid;
      seq = r.next_expected_seq;
      payload = p;
    } in
    (
      take_chunk false parsed r s,
      dispatch_decrypted-take false tid reads p counter r s eight same size
          (subst (λ n. n ≤ max_file_size_bytes) (sym good.sized) small) piece room now,
      take_chunk-Took parsed r s now good.no_credit,
    )
