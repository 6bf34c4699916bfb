-- ===== src/Transfer/Chunks/Plaintext.antt =====
-- The receiver reads back the chunk that the send worker wrote.
use mathlib.Core.List.{append_assoc}
use unseen_fyi.Prelude.{
  ℕ, ◌+◌, ◌/◌, ◌%◌, ◌<◌, ◌≡◌, refl, sym, ap, ◌∙◌, some, [], ◌∷◌, ◌++◌, arith, length, length-append,
  length-replicate, replicate-add, take-append_of, drop-append_add, get_or-append_add,
}
use unseen_fyi.Wire.Bytes.{
  Bytes, zeros, set_bytes, set_uint32, set_bytes-append, set_bytes-append_last, get_uint32_bytes,
}
use unseen_fyi.Transfer.Chunks.{to_hex, parse_chunk_plaintext, build_chunk_plaintext}

abbrev seq_field : ℕ → Bytes
seq_field seq = (seq % 256) ∷ (seq / 256 % 256) ∷ (seq / 65536 % 256) ∷ (seq / 16777216 % 256) ∷ []

-- The transfer's id, the number of the chunk, and the data.
build_chunk_plaintext-layout :
    (tid : Bytes) (seq : ℕ) (payload : Bytes)
    → length tid ≡ 8
    → build_chunk_plaintext tid seq payload ≡ tid ++ (seq_field seq ++ payload)
unfolding build_chunk_plaintext set_uint32
build_chunk_plaintext-layout tid seq payload h =
    ap (λ buf. set_bytes (set_bytes (set_bytes buf 0 tid) 8 (seq_field seq)) 12 payload)
      (ap zeros (let e : 12 + length payload ≡ 8 + (4 + length payload) = omega arith in e)
        ∙ replicate-add 8 (4 + length payload) 0)
    ∙ ap (λ buf. set_bytes (set_bytes buf 8 (seq_field seq)) 12 payload)
        (set_bytes-append 0 [] (zeros 8) (zeros (4 + length payload)) tid refl h)
    ∙ ap (λ rest. set_bytes (set_bytes (tid ++ rest) 8 (seq_field seq)) 12 payload)
        (replicate-add 4 (length payload) 0)
    ∙ ap (λ buf. set_bytes buf 12 payload)
        (set_bytes-append 8 tid (zeros 4) (zeros (length payload)) (seq_field seq) h refl)
    ∙ ap (λ buf. set_bytes buf 12 payload)
        (sym (append_assoc tid (seq_field seq) (zeros (length payload))))
    ∙ set_bytes-append_last 12 (tid ++ seq_field seq) (zeros (length payload)) payload
        (omega (arith, length-append tid (seq_field seq)))
        (sym (length-replicate (length payload) 0))
    ∙ append_assoc tid (seq_field seq) payload

-- With an id of 8 bytes and a number that is a uint32, what the send worker writes for a chunk is read
-- by the receiver as that id in hexadecimal, that number and that data.
pub parse_chunk_plaintext-build :
    (tid : Bytes) (seq : ℕ) (payload : Bytes)
    → length tid ≡ 8
    → seq < 4294967296
    → parse_chunk_plaintext (build_chunk_plaintext tid seq payload)
      ≡ some (record { tid_hex = to_hex tid; seq = seq; payload = payload })
unfolding parse_chunk_plaintext
parse_chunk_plaintext-build tid seq payload h k =
    rw (build_chunk_plaintext-layout tid seq payload h) (
      ground (
        arith,
        length-append tid (seq_field seq ++ payload),
        take-append_of 8 tid (seq_field seq ++ payload) h,
        drop-append_add 8 4 tid (seq_field seq ++ payload) h,
        get_or-append_add 8 0 tid (seq_field seq ++ payload) 0 h,
        get_or-append_add 8 1 tid (seq_field seq ++ payload) 0 h,
        get_or-append_add 8 2 tid (seq_field seq ++ payload) 0 h,
        get_or-append_add 8 3 tid (seq_field seq ++ payload) 0 h,
        get_uint32_bytes seq k,
      ))
