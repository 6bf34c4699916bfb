-- ===== src/Transfer/ReceiveWorker/Stores.antt =====
-- The receive worker stores the file that was cut, and says so to the receiver.
use mathlib.Core.List.{append_assoc, append-nil}
use unseen_fyi.Prelude.{
  ℕ, suc, ◌+◌, ◌*◌, ◌≡◌, ◌⊎◌, inl, inr, refl, sym, ap, ◌∙◌, subst, Bool, true, false, Option, none,
  some, String, List, [], ◌∷◌, ◌++◌, length, ◌==◌, length-append, arith, if◌then◌else◌,
}
use unseen_fyi.Prelude.Eq.{string_eq}
use unseen_fyi.Wire.Bytes.{Bytes}
use unseen_fyi.Transfer.Chunks.{chunk_data_max_bytes, all_pieces}
use unseen_fyi.Transfer.Chunks.Cuts.{Cuts, stream_bytes, all_pieces-Cuts}
use unseen_fyi.Transfer.Receiver.{Receiving, WorkerIn, init, chunk, finalize}
use unseen_fyi.Transfer.Receiver.Arrival.{Done, WorkerOut, ready, closed, written, done, is_intact}
use unseen_fyi.Transfer.ReceiveWorker.{
  Storage, by_abort, WorkerState, initial_state, post_plain, resolved, resolve_closed, give_up,
  after_write, after_digest, chunk_of, handle_chunk, finalize_of, handle_finalize, on_message,
  close_if, receive, receive_all, lock_granted,
}

-- A write at the end of the file that says it wrote all the data appended it.
pub record Reliable (storage : Storage) : Type 0 where
  pub appends :
      (contents data' contents' : Bytes) (count : ℕ)
      → storage.write contents (length contents) data' ≡ (some count, contents')
      → count ≡ length data'
      → contents' ≡ contents ++ data'
  pub size : (contents : Bytes) (n : ℕ) → storage.get_size contents ≡ some n → n ≡ length contents

-- The worker at work, with a file that holds these bytes.
abbrev pub open_state : Bytes → List WorkerOut → WorkerState
open_state contents out = record {
  initialised = true;
  bytes_written = length contents;
  sah = some contents;
  hasher = some contents;
  file_handle = true;
  closing = none;
  ended = false;
  out = out;
}

abbrev pub chunks_from : ℕ → List Bytes → List WorkerIn
chunks_from n [] = []
chunks_from n (p ∷ ps) = chunk n p ∷ chunks_from (suc n) ps

-- The worker gave up, and told the receiver so.
abbrev pub Failed : WorkerState → Type 0
Failed s = (s.closing ≡ some by_abort) × (s.ended ≡ true)

abbrev pub Stored : Bytes → WorkerState → Type 0
Stored contents s = (out : List WorkerOut) × (s ≡ open_state contents out)

abbrev settled : WorkerState → WorkerState
settled s = close_if s.closing s.sah s

either_if :
    (contents : Bytes) (b : Bool) (x y : WorkerState)
    → (b ≡ true → Stored contents (settled x))
    → Failed (settled y)
    → Stored contents (settled (if b then x else y)) ⊎ Failed (settled (if b then x else y))
either_if contents true x y h k = inl (h refl)
either_if contents false x y h k = inr k

counts_equal : (a b : ℕ) → (a == b) ≡ true → a ≡ b
counts_equal a b e = ground arith

module _ (storage : Storage) (reliable : Reliable storage) where
  after_write_lem :
      (n : ℕ) (pre p : Bytes) (out : List WorkerOut) (w : Option ℕ × Bytes)
      → storage.write pre (length pre) p ≡ w
      → Stored (pre ++ p) (settled (after_write n p pre w (open_state pre out)))
        ⊎ Failed (settled (after_write n p pre w (open_state pre out)))
  unfolding after_write close_if give_up post_plain resolve_closed resolved
  after_write_lem n pre p out (none, contents) e = inr (refl, refl)
  after_write_lem n pre p out (some count, contents) e =
      either_if (pre ++ p) (count == length p) _ _
        (λ same.
          let all : count ≡ length p = counts_equal count (length p) same in
          let appended : contents ≡ pre ++ p = reliable.appends pre p contents count e all in
          (
            out ++ written n count ∷ [],
            ap (λ c. written_with c (length pre + count)) appended
                ∙ ap (written_with (pre ++ p))
                    (ap (λ k. length pre + k) all ∙ sym (length-append pre p)),
          ))
        (refl, refl)
    where
      written_with : Bytes → ℕ → WorkerState
      written_with c total = record {
        initialised = true;
        bytes_written = total;
        sah = some c;
        hasher = some (pre ++ p);
        file_handle = true;
        closing = none;
        ended = false;
        out = out ++ written n count ∷ [];
      }

  receive_chunk-Stored :
      (n : ℕ) (pre p : Bytes) (out : List WorkerOut)
      → length pre ≡ n * chunk_data_max_bytes
      → Stored (pre ++ p) (receive storage (chunk n p) (open_state pre out))
        ⊎ Failed (receive storage (chunk n p) (open_state pre out))
  unfolding receive on_message handle_chunk chunk_of
  receive_chunk-Stored n pre p out e =
      subst
        (λ offset.
          Stored (pre ++ p)
            (settled (after_write n p pre (storage.write pre offset p) (open_state pre out)))
          ⊎ Failed
              (settled (after_write n p pre (storage.write pre offset p) (open_state pre out))))
        e (after_write_lem n pre p out _ refl)

  ended_ignores : (msg : WorkerIn) (s : WorkerState) → s.ended ≡ true → receive storage msg s ≡ s
  unfolding receive
  ended_ignores msg s e = rw e refl

  receive_all-Failed :
      (msgs : List WorkerIn) (s : WorkerState) → Failed s → Failed (receive_all storage msgs s)
  unfolding receive_all
  receive_all-Failed [] s h = h
  receive_all-Failed (msg ∷ msgs) s h =
      receive_all-Failed msgs (receive storage msg s)
        (subst Failed (sym (ended_ignores msg s h.1)) h)

  receive_all-Cuts :
      {ps : List Bytes} {file : Bytes}
      → Cuts ps file
      → (n : ℕ) (pre : Bytes) (out : List WorkerOut) → length pre ≡ n * chunk_data_max_bytes
      → Stored (pre ++ file) (receive_all storage (chunks_from n ps) (open_state pre out))
        ⊎ Failed (receive_all storage (chunks_from n ps) (open_state pre out))
  unfolding receive_all
  receive_all-Cuts Cuts.done n pre out e =
      inl (out, ap (λ c. open_state c out) (sym (append-nil pre)))
  receive_all-Cuts (Cuts.last low high) n pre out e = receive_chunk-Stored n pre _ out e
  receive_all-Cuts (Cuts.whole {p = p} {ps = ps} {file = file} l c) n pre out e =
      let longer : length (pre ++ p) ≡ suc n * chunk_data_max_bytes =
        omega (arith, length-append pre p) in
      by_step (λ out'. receive_all-Cuts c (suc n) (pre ++ p) out' longer)
        (receive_chunk-Stored n pre p out e)
    where
      rest : List WorkerIn
      rest = chunks_from (suc n) ps

      Ends : Bytes → WorkerState → Type 0
      Ends contents s =
          Stored contents (receive_all storage rest s) ⊎ Failed (receive_all storage rest s)

      by_step :
          ((out' : List WorkerOut) → Ends ((pre ++ p) ++ file) (open_state (pre ++ p) out'))
          → Stored (pre ++ p) (receive storage (chunk n p) (open_state pre out))
            ⊎ Failed (receive storage (chunk n p) (open_state pre out))
          → Ends (pre ++ (p ++ file)) (receive storage (chunk n p) (open_state pre out))
      by_step again (inl (out', same)) =
          subst (Ends (pre ++ (p ++ file))) (sym same) (
            subst (λ c. Ends c (open_state (pre ++ p) out')) (append_assoc pre p file) (again out'))
      by_step again (inr h) = inr (receive_all-Failed rest _ h)

  -- When the worker gets 'init', opens the file, and is posted the pieces of a file as the send worker
  -- cuts them, in order from 0: then either its file holds exactly that file, the checksum was fed
  -- exactly that file and its count is the file's size, or it has given up and closed.
  pub stores_file :
      (tid : String) (size : ℕ) (reads : List Bytes)
      → Stored (stream_bytes reads) (
          receive_all storage
            (chunks_from 0 (all_pieces [] reads))
            (lock_granted true (receive storage (init tid size) initial_state)))
        ⊎ Failed (
            receive_all storage
              (chunks_from 0 (all_pieces [] reads))
              (lock_granted true (receive storage (init tid size) initial_state)))
  unfolding lock_granted receive on_message close_if post_plain
  stores_file tid size reads = receive_all-Cuts (all_pieces-Cuts reads) 0 [] (ready ∷ []) refl

  intact_test :
      (r : Receiving) (sha : String) (file : Bytes) (size : ℕ)
      → r.sender_sha256 ≡ some sha
      → r.expected_size ≡ length file
      → size ≡ length file
      → is_intact r (record { sha256_hex = sha; bytes_written = length file; file_size = size })
        ≡ true
  unfolding is_intact
  intact_test r sha file size e expected all =
      rw (e, (string_eq.beq_iff sha sha).1 refl, expected, all) (ground arith)

  -- A worker whose file is the one sent and to which 'finalize' is posted, when its file's size and the
  -- checksum can be had: it says it is done, with what the receiver takes for an intact file of the
  -- offered size if the sender's checksum is the file's, and closes.
  pub finalize-intact :
      (file : Bytes) (out : List WorkerOut) (r : Receiving) (sha : String) (size : ℕ)
      → storage.get_size file ≡ some size
      → storage.digest file ≡ some sha
      → r.sender_sha256 ≡ some sha
      → r.expected_size ≡ length file
      → (msg : Done) × ((receive storage finalize (open_state file out)).out
          ≡ (out ++ done msg ∷ []) ++ closed ∷ [])
        × ((receive storage finalize (open_state file out)).sah ≡ none)
        × (is_intact r msg ≡ true)
  unfolding receive on_message handle_finalize finalize_of after_digest resolve_closed resolved
      post_plain close_if
  finalize-intact file out r sha size got summed e expected =
      let msg : Done = record { sha256_hex = sha; bytes_written = length file; file_size = size } in
      rw (got, summed)
        (msg, refl, refl, intact_test r sha file size e expected (reliable.size file size got))
