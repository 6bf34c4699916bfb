-- ===== src/Transfer/SendWorker/Order.antt =====
-- What the send worker posts, whenever credit and reads arrive.
use mathlib.Core.List.{append_assoc, append-nil}
use unseen_fyi.Prelude.{
  ℕ, suc, ◌+◌, ◌-◌, ◌<◌, ◌≡◌, refl, sym, ap, ◌∙◌, List, [], ◌∷◌, ◌++◌, length, arith, length-append,
}
use unseen_fyi.Wire.Bytes.{Bytes}
use unseen_fyi.Transfer.Chunks.{build_chunk_plaintext}
use unseen_fyi.Transfer.Chunks.Cuts.{Cuts}
use unseen_fyi.Transfer.SendWorker.{
  WorkerOut, ready, plaintext_chunk, WorkerState, post, emit_piece,
}

-- The chunks for these pieces, numbered from `n` on.
abbrev pub built : Bytes → ℕ → List Bytes → List WorkerOut
built tid n [] = []
built tid n (p ∷ ps) = plaintext_chunk n (build_chunk_plaintext tid n p) ∷ built tid (suc n) ps

abbrev pub joined : List Bytes → Bytes
joined [] = []
joined (p ∷ ps) = p ++ joined ps

-- What happens: the main thread pulls, or the stream answers a read.
pub data Act : Type 0 where
  pull answer : Act

abbrev pub grants : List Act → ℕ
grants [] = 0
grants (pull ∷ acts) = suc (grants acts)
grants (answer ∷ acts) = grants acts

-- Every piece in `gone` was posted and fed to the checksum, and cost a credit.
pub record Posted (tid : Bytes) (granted : ℕ) (gone : List Bytes) (s : WorkerState) : Type 0 where
  pub same_tid : s.tid ≡ tid
  pub counted : s.seq ≡ length gone
  pub fed : s.hashed ≡ joined gone
  pub paid : s.seq + s.credit ≡ granted
  pub posted : s.out ≡ ready ∷ built tid 0 gone

built-snoc :
    (tid : Bytes) (n : ℕ) (ps : List Bytes) (p : Bytes)
    → built tid n (ps ++ p ∷ [])
      ≡ built tid n ps
        ++ plaintext_chunk (n + length ps) (build_chunk_plaintext tid (n + length ps) p) ∷ []
built-snoc tid n [] p = ap (λ k. plaintext_chunk k (build_chunk_plaintext tid k p) ∷ []) (same n)
  where
    same : (n : ℕ) → n ≡ n + 0
    same n = omega arith
built-snoc tid n (q ∷ ps) p =
    ap (λ l. plaintext_chunk n (build_chunk_plaintext tid n q) ∷ l)
      (built-snoc tid (suc n) ps p
        ∙ ap (λ k. built tid (suc n) ps ++ plaintext_chunk k (build_chunk_plaintext tid k p) ∷ [])
            (later n (length ps)))
  where
    later : (n k : ℕ) → suc n + k ≡ n + suc k
    later n k = omega arith

joined-snoc : (ps : List Bytes) (p : Bytes) → joined (ps ++ p ∷ []) ≡ joined ps ++ p
joined-snoc [] p = append-nil p
joined-snoc (q ∷ ps) p = ap (λ l. q ++ l) (joined-snoc ps p) ∙ sym (append_assoc q (joined ps) p)

pub emit_piece-Posted :
    (tid : Bytes) (granted : ℕ) (gone : List Bytes) (p : Bytes) (s : WorkerState)
    → 0 < s.credit
    → Posted tid granted gone s
    → Posted tid granted (gone ++ p ∷ []) (emit_piece p s)
unfolding emit_piece post
emit_piece-Posted tid granted gone p s credit h = record {
  same_tid = h.same_tid;
  counted = omega (arith, length-append gone (p ∷ []), h.counted);
  fed = ap (λ b. b ++ p) h.fed ∙ sym (joined-snoc gone p);
  paid = spent s.seq s.credit granted credit h.paid;
  posted =
      ap (λ l. l ++ plaintext_chunk s.seq (build_chunk_plaintext s.tid s.seq p) ∷ []) h.posted
      ∙ ap
          (λ t.
            ready
            ∷ (built tid 0 gone ++ plaintext_chunk s.seq (build_chunk_plaintext t s.seq p) ∷ []))
          h.same_tid
      ∙ ap
          (λ n.
            ready ∷ (built tid 0 gone ++ plaintext_chunk n (build_chunk_plaintext tid n p) ∷ []))
          (h.counted ∙ from_zero (length gone))
      ∙ ap (λ l. ready ∷ l) (sym (built-snoc tid 0 gone p));
}
  where
    from_zero : (n : ℕ) → n ≡ 0 + n
    from_zero n = omega arith

    spent :
        (seq credit granted : ℕ)
        → 0 < credit
        → seq + credit ≡ granted
        → seq + 1 + (credit - 1) ≡ granted
    spent seq credit granted lt e = omega arith

pub Cuts-joined : {ps : List Bytes} {file : Bytes} → Cuts ps file → joined ps ≡ file
Cuts-joined Cuts.done = refl
Cuts-joined (Cuts.last {p = p} low high) = append-nil p
Cuts-joined (Cuts.whole {p = p} l c) = ap (λ b. p ++ b) (Cuts-joined c)
