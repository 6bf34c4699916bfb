-- ===== src/Transfer/Chunks/Cuts.antt =====
-- The pieces that the send worker emits are the file, cut where the receiver expects it.
use mathlib.Core.List.{append_assoc, append-nil}
use unseen_fyi.Prelude.{
  ℕ, zero, suc, ◌+◌, ◌*◌, ◌≤◌, ◌<◌, ◌≡◌, refl, inl, inr, sym, ap, subst, ◌∙◌, true, false, some,
  List, [], ◌∷◌, ◌++◌, arith, length, take, drop, get_elem?, ltb, leb, if◌then◌else◌, Bool-cases,
  take-append-drop, take_all, length-append, length-take, length-drop, take-append_of,
  drop-append_add,
}
use unseen_fyi.Wire.Bytes.{Bytes}
use unseen_fyi.Transfer.Chunks.{
  chunk_data_max_bytes, compute_total_chunks, expected_chunk_len, take_pieces, consume_into_chunks,
  all_pieces,
}

-- The pieces are `file` cut after every 8692 bytes; only the last may be shorter, and none is empty.
pub data Cuts : List Bytes → Bytes → Type 0 where
  done : Cuts [] []
  last : {p : Bytes} → 1 ≤ length p → length p ≤ chunk_data_max_bytes → Cuts (p ∷ []) p
  whole :
      {p : Bytes} {ps : List Bytes} {file : Bytes}
      → length p ≡ chunk_data_max_bytes
      → Cuts ps file
      → Cuts (p ∷ ps) (p ++ file)

-- Whole pieces put before what is cut further.
data Before : List Bytes → Bytes → Bytes → Type 0 where
  none_taken : {left : Bytes} → Before [] left left
  taken :
      {p : Bytes} {ps : List Bytes} {left file : Bytes}
      → length p ≡ chunk_data_max_bytes
      → Before ps left file
      → Before (p ∷ ps) left (p ++ file)

Before-append :
    (more : Bytes) {ps qs : List Bytes} {left file : Bytes}
    → Before ps left file
    → Cuts qs (left ++ more)
    → Cuts (ps ++ qs) (file ++ more)
Before-append more none_taken c = c
Before-append more {qs = qs} (taken {p} {ps} {left} {file} h b) c =
    subst (λ f. Cuts (p ∷ (ps ++ qs)) f) (sym (append_assoc p file more))
      (whole h (Before-append more b c))

whole_length :
    (combined : Bytes)
    → leb chunk_data_max_bytes (length combined) ≡ true
    → length (take chunk_data_max_bytes combined) ≡ chunk_data_max_bytes
whole_length combined h =
    length-take chunk_data_max_bytes combined
    ∙ (let e : chunk_data_max_bytes ≤ length combined = ground arith in omega (arith, e))

short_length :
    (combined : Bytes)
    → leb chunk_data_max_bytes (length combined) ≡ false
    → length combined < chunk_data_max_bytes
short_length combined h = ground arith

-- The loop ends by its test, and cuts off whole pieces.
take_pieces-Before :
    (rounds : ℕ) (combined : Bytes)
    → length combined ≤ rounds
    → Before (take_pieces rounds combined).0 (take_pieces rounds combined).1 combined
      × (length (take_pieces rounds combined).1 < chunk_data_max_bytes)
unfolding take_pieces
take_pieces-Before zero combined h = (none_taken, omega arith)
take_pieces-Before (suc rounds) combined h =
    let rest : Bytes = drop chunk_data_max_bytes combined in
    let later =
      take_pieces-Before rounds rest (omega (arith, length-drop chunk_data_max_bytes combined)) in
    elim (Bool-cases (leb chunk_data_max_bytes (length combined))) [
      | inl long ↦ rw long (
        subst
            (λ f.
              Before (take chunk_data_max_bytes combined ∷ (take_pieces rounds rest).0)
                (take_pieces rounds rest).1 f)
            (take-append-drop chunk_data_max_bytes combined)
            (taken (whole_length combined long) later.0),
        later.1,
      )
      | inr short ↦ rw short (none_taken, short_length combined short)
    ]

take_pieces_short :
    (rounds : ℕ) (combined : Bytes)
    → length combined < chunk_data_max_bytes
    → take_pieces rounds combined ≡ ([], combined)
unfolding take_pieces
take_pieces_short zero combined h = refl
take_pieces_short (suc rounds) combined h =
    let short : leb chunk_data_max_bytes (length combined) ≡ false = ground arith in rw short refl

-- All that the stream gives.
unfoldable pub stream_bytes : List Bytes → Bytes
stream_bytes [] = []
stream_bytes (value ∷ reads) = value ++ stream_bytes reads

end_pieces : List Bytes × Bytes → List Bytes
end_pieces (pieces, left) =
    let ended : List Bytes × Bytes =
      if ltb 0 (length left) then (pieces ++ left ∷ [], []) else (pieces, []) in
    ended.0

end_pieces-Cuts :
    (tail : Bytes) → length tail < chunk_data_max_bytes → Cuts (end_pieces ([], tail)) tail
unfolding end_pieces
end_pieces-Cuts [] h = done
end_pieces-Cuts (b ∷ tail) h =
    let some_left : ltb 0 (suc (length tail)) ≡ true = ground arith in
    rw (end_pieces, some_left) (last (omega arith) (omega arith))

consume_at_end :
    (tail : Bytes)
    → length tail < chunk_data_max_bytes
    → Cuts (consume_into_chunks tail [] true).0 tail
unfolding consume_into_chunks end_pieces
consume_at_end tail h =
    subst (λ taken. Cuts (end_pieces taken) tail)
      (sym (
        ap (λ combined. take_pieces (length combined) combined) (append-nil tail)
        ∙ take_pieces_short (length tail) tail h))
      (end_pieces-Cuts tail h)

all_pieces-Cuts_from :
    (reads : List Bytes) (tail : Bytes)
    → length tail < chunk_data_max_bytes
    → Cuts (all_pieces tail reads) (tail ++ stream_bytes reads)
unfolding all_pieces stream_bytes consume_into_chunks
all_pieces-Cuts_from [] tail h =
    subst (λ f. Cuts (all_pieces tail []) f) (sym (append-nil tail)) (consume_at_end tail h)
all_pieces-Cuts_from (value ∷ reads) tail h =
    let (cut, short) = take_pieces-Before (length (tail ++ value)) (tail ++ value) (omega arith) in
    subst (λ f. Cuts (all_pieces tail (value ∷ reads)) f)
      (append_assoc tail value (stream_bytes reads))
      (Before-append (stream_bytes reads) cut
        (all_pieces-Cuts_from reads (take_pieces (length (tail ++ value)) (tail ++ value)).1 short))

-- However the stream cuts the file into reads, the pieces that the send worker emits are the file cut
-- after every 8692 bytes, of which only the last may be shorter and none is empty.
pub all_pieces-Cuts : (reads : List Bytes) → Cuts (all_pieces [] reads) (stream_bytes reads)
all_pieces-Cuts reads = all_pieces-Cuts_from reads [] (omega arith)

-- The pieces by their numbers: as many as the receiver counts, each as long as it expects.
unfoldable pub IsPiece : Bytes → ℕ → Bytes → Type 0
IsPiece file seq p =
    (p ≡ take chunk_data_max_bytes (drop (seq * chunk_data_max_bytes) file))
    × (seq < compute_total_chunks (length file))
    × (length p ≡ expected_chunk_len (length file) seq (compute_total_chunks (length file)))

total_one : (size : ℕ) → 1 ≤ size → size ≤ chunk_data_max_bytes → compute_total_chunks size ≡ 1
unfolding compute_total_chunks
total_one size low high = omega arith

total_more :
    (size : ℕ)
    → compute_total_chunks (chunk_data_max_bytes + size) ≡ suc (compute_total_chunks size)
unfolding compute_total_chunks
total_more size = omega arith

expected_one : (size : ℕ) → expected_chunk_len size 0 1 ≡ size
unfolding expected_chunk_len
expected_one size = ground arith

expected_first :
    (size : ℕ)
    → expected_chunk_len (chunk_data_max_bytes + size) 0 (suc (compute_total_chunks size))
      ≡ chunk_data_max_bytes
unfolding expected_chunk_len compute_total_chunks
expected_first size = ground arith

expected_later :
    (size seq total : ℕ)
    → seq < total
    → expected_chunk_len (chunk_data_max_bytes + size) (suc seq) (suc total)
      ≡ expected_chunk_len size seq total
unfolding expected_chunk_len
expected_later size seq total h = ground arith

last-IsPiece : (p : Bytes) → 1 ≤ length p → length p ≤ chunk_data_max_bytes → IsPiece p 0 p
unfolding IsPiece
last-IsPiece p low high =
    rw (total_one (length p) low high)
      (sym (take_all chunk_data_max_bytes p high), omega arith, sym (expected_one (length p)))

length-whole :
    (p file : Bytes)
    → length p ≡ chunk_data_max_bytes
    → length (p ++ file) ≡ chunk_data_max_bytes + length file
length-whole p file h = length-append p file ∙ ap (λ n. n + length file) h

whole-IsPiece_first : (p file : Bytes) → length p ≡ chunk_data_max_bytes → IsPiece (p ++ file) 0 p
unfolding IsPiece
whole-IsPiece_first p file h =
    rw (length-whole p file h, total_more (length file))
      (
        sym (take-append_of chunk_data_max_bytes p file h),
        omega arith,
        h ∙ sym (expected_first (length file)),
      )

drop-whole :
    (p file : Bytes) (n : ℕ)
    → length p ≡ chunk_data_max_bytes
    → drop (chunk_data_max_bytes + n) (p ++ file) ≡ drop n file
drop-whole p file n h = drop-append_add chunk_data_max_bytes n p file h

whole-IsPiece_later :
    (p q file : Bytes) (seq : ℕ)
    → length p ≡ chunk_data_max_bytes
    → IsPiece file seq q
    → IsPiece (p ++ file) (suc seq) q
unfolding IsPiece
whole-IsPiece_later p q file seq h (e, lt, l) =
    let there : suc seq * chunk_data_max_bytes ≡ chunk_data_max_bytes + seq * chunk_data_max_bytes =
      omega arith in
    rw
      (
        length-whole p file h,
        total_more (length file),
        there,
        drop-whole p file (seq * chunk_data_max_bytes) h,
      )
      (
        e,
        omega arith,
        l ∙ sym (expected_later (length file) seq (compute_total_chunks (length file)) lt),
      )

pub Cuts-IsPiece :
    {ps : List Bytes} {file : Bytes}
    → Cuts ps file
    → (seq : ℕ) (p : Bytes) → get_elem? ps seq ≡ some p
    → IsPiece file seq p
Cuts-IsPiece done seq p h = absurd (cc h)
Cuts-IsPiece (last {p = q} low high) zero p h =
    let same : q ≡ p = cc h in subst (λ r. IsPiece q 0 r) same (last-IsPiece q low high)
Cuts-IsPiece (last low high) (suc seq) p h = absurd (cc h)
Cuts-IsPiece (whole {p = q} {file = file} l c) zero p h =
    let same : q ≡ p = cc h in
    subst (λ r. IsPiece (q ++ file) 0 r) same (whole-IsPiece_first q file l)
Cuts-IsPiece (whole {p = q} {file = file} l c) (suc seq) p h =
    whole-IsPiece_later q p file seq l (Cuts-IsPiece c seq p h)
