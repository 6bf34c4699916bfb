-- ===== src/Transfer/Receiver/Invariant/Taken.antt =====
-- What holds of the transfer once an expected chunk is posted or queued.
use unseen_fyi.Prelude.{
  ℕ, suc, ◌+◌, ◌-◌, ◌*◌, ◌≤◌, ◌<◌, ◌≡◌, refl, sym, ap, ◌∙◌, subst, true, not, ◌&&◌, List, [], ◌∷◌,
  ◌++◌, length, min, leb, is_some, ◌==◌, arith,
}
use unseen_fyi.Prelude.Eq.{string_eq}
use unseen_fyi.Transfer.Chunks.{
  ChunkPlaintext, chunk_data_max_bytes, compute_total_chunks, expected_chunk_len,
}
use unseen_fyi.Transfer.Receiver.{
  Chunk, Receiving, chunk, Effect, post, recv_pending_hard_cap_chunks,
}
use unseen_fyi.Transfer.Receiver.Arrival.{is_expected}
use unseen_fyi.Transfer.Receiver.Invariant.{upto, Numbered, ReceivingOk}
use unseen_fyi.Transfer.Receiver.Invariant.Holding.{posted-own}

-- What `is_expected` says of a piece.
abbrev pub Expected : Receiving → ChunkPlaintext → Type 0
Expected r parsed =
    (parsed.seq ≡ r.next_expected_seq)
    × (parsed.seq < compute_total_chunks r.expected_size)
    × (length parsed.payload
        ≡ expected_chunk_len r.expected_size parsed.seq (compute_total_chunks r.expected_size))

pub is_expected-Expected :
    (r : Receiving) (parsed : ChunkPlaintext) → is_expected r parsed ≡ true → Expected r parsed
unfolding is_expected
is_expected-Expected r parsed e =
    tests parsed.seq r.next_expected_seq (compute_total_chunks r.expected_size)
      (length parsed.payload) _ e
  where
    tests :
        (seq next total len expected : ℕ)
        → ((seq == next) && not (leb total seq) && (len == expected)) ≡ true
        → (seq ≡ next) × (seq < total) × (len ≡ expected)
    tests seq next total len expected e = ground arith

counted_up :
    (n size len : ℕ)
    → n < compute_total_chunks size
    → len ≡ expected_chunk_len size n (compute_total_chunks size)
    → min (n * chunk_data_max_bytes) size + len ≡ min ((n + 1) * chunk_data_max_bytes) size
unfolding compute_total_chunks expected_chunk_len
counted_up n size len lt e = ground arith

not_whole_yet :
    (n size : ℕ) → n < compute_total_chunks size → min (n * chunk_data_max_bytes) size < size
unfolding compute_total_chunks
not_whole_yet n size lt = ground arith

length-snoc : (cs : List Chunk) (c : Chunk) → length (cs ++ c ∷ []) ≡ suc (length cs)
length-snoc [] c = refl
length-snoc (d ∷ cs) c = ap suc (length-snoc cs c)

Numbered-snoc :
    (n : ℕ) (cs : List Chunk) (c : Chunk)
    → c.seq ≡ n + length cs
    → Numbered n cs
    → Numbered n (cs ++ c ∷ [])
Numbered-snoc n [] c e h = ((omega arith), tt)
Numbered-snoc n (d ∷ cs) c e (here, after) = (here, Numbered-snoc (suc n) cs c (omega arith) after)

module _ (r : Receiving) (parsed : ChunkPlaintext) (out : List Effect) (h : ReceivingOk r out)
    (e : Expected r parsed) where
  below : r.next_expected_seq < compute_total_chunks r.size
  below =
      let (here, lt, _) = e in
      subst (λ n. n < compute_total_chunks r.size) here
        (subst (λ n. parsed.seq < compute_total_chunks n) h.sized lt)

  counts :
      r.network_received_bytes + length parsed.payload
      ≡ min ((r.next_expected_seq + 1) * chunk_data_max_bytes) r.size
  counts =
      let (here, _, len) = e in
      let len' : length parsed.payload
          ≡ expected_chunk_len r.size r.next_expected_seq (compute_total_chunks r.size) =
        len
        ∙ ap (λ n. expected_chunk_len n parsed.seq (compute_total_chunks n)) h.sized
        ∙ ap (λ n. expected_chunk_len r.size n (compute_total_chunks r.size)) here in
      ap (λ n. n + length parsed.payload) h.counted
      ∙ counted_up r.next_expected_seq r.size (length parsed.payload) below len'

  no_checksum : is_some r.sender_sha256 ≡ true → ⊥
  no_checksum k =
      less_than_all r.network_received_bytes _ r.size h.counted
        (not_whole_yet r.next_expected_seq r.size below) (h.complete k)
    where
      less_than_all : (n m size : ℕ) → n ≡ m → m < size → n ≡ size → ⊥
      less_than_all n m size e lt k = ground arith

  pub posted-ReceivingOk :
      0 < r.receive_credit
      → ReceivingOk
          (record r {
            next_expected_seq = r.next_expected_seq + 1;
            network_received_bytes = r.network_received_bytes + length parsed.payload;
            receive_credit = r.receive_credit - 1;
          })
          (out ++ post r.worker (chunk parsed.seq parsed.payload) ∷ [])
  posted-ReceivingOk credit =
      let empty : length r.pending_chunk_queue ≡ 0 =
        none_waits (length r.pending_chunk_queue) r.receive_credit h.no_credit credit in
      let next : r.next_expected_seq + 1 - length r.pending_chunk_queue
          ≡ suc (r.next_expected_seq - length r.pending_chunk_queue) =
        omega arith in
      record {
        sized = h.sized;
        counted = counts;
        in_range = omega (arith, below);
        short = h.short;
        queued = omega arith;
        no_credit = λ lt. ground arith;
        numbered = none_numbered r.pending_chunk_queue empty _;
        in_order =
            posted-own r.worker parsed.seq parsed.payload out
            ∙ ap (λ l. l ++ parsed.seq ∷ []) h.in_order
            ∙ ap (λ n. upto (r.next_expected_seq - length r.pending_chunk_queue) ++ n ∷ [])
                (first r.next_expected_seq (length r.pending_chunk_queue) parsed.seq empty e.0)
            ∙ ap upto (sym next);
        complete = λ k. absurd (no_checksum k);
        final = h.final;
      }
    where
      none_waits : (n credit : ℕ) → (0 < n → credit ≡ 0) → 0 < credit → n ≡ 0
      none_waits n credit k lt = ground arith

      none_numbered : (cs : List Chunk) → length cs ≡ 0 → (n : ℕ) → Numbered n cs
      none_numbered [] e n = tt
      none_numbered (c ∷ cs) e n = ground arith

      first : (n k seq : ℕ) → k ≡ 0 → seq ≡ n → seq ≡ n - k
      first n k seq e here = omega arith

  pub queued-ReceivingOk :
      (c : Chunk)
      → c.seq ≡ parsed.seq
      → r.receive_credit ≡ 0
      → length r.pending_chunk_queue < recv_pending_hard_cap_chunks
      → ReceivingOk
          (record r {
            next_expected_seq = r.next_expected_seq + 1;
            network_received_bytes = r.network_received_bytes + length parsed.payload;
            pending_chunk_queue = r.pending_chunk_queue ++ c ∷ [];
          })
          out
  queued-ReceivingOk c same credit room =
      let more : length (r.pending_chunk_queue ++ c ∷ []) ≡ suc (length r.pending_chunk_queue) =
        length-snoc r.pending_chunk_queue c in
      let next : r.next_expected_seq - length r.pending_chunk_queue
          ≡ r.next_expected_seq + 1 - length (r.pending_chunk_queue ++ c ∷ []) =
        unmoved r.next_expected_seq (length r.pending_chunk_queue) _ more in
      record {
        sized = h.sized;
        counted = counts;
        in_range = omega (arith, below);
        short = at_most (length r.pending_chunk_queue) _ more room;
        queued = one_more (length r.pending_chunk_queue) _ r.next_expected_seq more h.queued;
        no_credit = λ _. credit;
        numbered =
            subst (λ n. Numbered n (r.pending_chunk_queue ++ c ∷ [])) next
              (Numbered-snoc _ r.pending_chunk_queue c
                (same ∙ e.0 ∙ whole r.next_expected_seq (length r.pending_chunk_queue) h.queued)
                h.numbered);
        in_order = h.in_order ∙ ap upto next;
        complete = λ k. absurd (no_checksum k);
        final = h.final;
      }
    where
      unmoved : (n k m : ℕ) → m ≡ suc k → n - k ≡ n + 1 - m
      unmoved n k m e = omega arith

      at_most : (k m : ℕ) → m ≡ suc k → k < 32 → m ≤ 32
      at_most k m e lt = omega arith

      one_more : (k m n : ℕ) → m ≡ suc k → k ≤ n → m ≤ n + 1
      one_more k m n e le = omega arith

      whole : (n k : ℕ) → k ≤ n → n ≡ n - k + k
      whole n k le = omega arith
