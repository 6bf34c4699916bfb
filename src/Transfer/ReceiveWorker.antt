-- ===== src/Transfer/ReceiveWorker.antt =====
-- The receive worker (client/src/workers/file-receive-worker.ts): it writes the chunks to a file of
-- the origin private file system and feeds them to the checksum. `Storage` is that file system and the
-- checksum: parameters.
pub mod Stores
use unseen_fyi.Prelude.{
  ℕ, ◌+◌, ◌*◌, Bool, true, false, Option, none, some, String, List, [], ◌∷◌, ◌++◌, length, ◌==◌,
  if◌then◌else◌,
}
use unseen_fyi.Wire.Bytes.{Bytes}
use unseen_fyi.Transfer.Chunks.{chunk_data_max_bytes}
use unseen_fyi.Transfer.Receiver.{WorkerIn, init, chunk, finalize, abort}
use unseen_fyi.Transfer.Receiver.Arrival.{
  Done, WorkerOut, ready, closed, short_write, fatal, written, done,
}

-- `write` of a sync access handle: the file's contents, the offset and the data give the number of
-- bytes written, unless it throws, and the contents after; `get_size` and `digest` may throw, too.
pub record Storage : Type 0 where
  pub write : Bytes → ℕ → Bytes → Option ℕ × Bytes
  pub get_size : Bytes → Option ℕ
  pub digest : Bytes → Option String

pub data Closing : Type 0 where
  by_finalize by_abort : Closing

-- `sah` is what the open file holds, `hasher` what the checksum was fed; `closing` is what
-- closedDeferred was resolved with, and `ended` is that the worker has closed itself.
pub record WorkerState : Type 0 where
  pub initialised : Bool
  pub bytes_written : ℕ
  pub sah : Option Bytes
  pub hasher : Option Bytes
  pub file_handle : Bool
  pub closing : Option Closing
  pub ended : Bool
  pub out : List WorkerOut

abbrev pub initial_state : WorkerState
initial_state = record {
  initialised = false;
  bytes_written = 0;
  sah = none;
  hasher = none;
  file_handle = false;
  closing = none;
  ended = false;
  out = [];
}

unfoldable pub post_plain : WorkerOut → WorkerState → WorkerState
post_plain msg s = record s { out = s.out ++ msg ∷ [] }

-- A promise is resolved once.
unfoldable pub resolved : Closing → Option Closing → Option Closing
resolved closing none = some closing
resolved closing (some before) = some before

unfoldable pub resolve_closed : Closing → WorkerState → WorkerState
unfolding resolved
resolve_closed closing s = record s { closing = resolved closing s.closing }

unfoldable pub give_up : WorkerOut → WorkerState → WorkerState
unfolding post_plain resolve_closed
give_up msg s = resolve_closed by_abort (post_plain msg s)

-- After `sah.write`.
unfoldable pub after_write : ℕ → Bytes → Bytes → Option ℕ × Bytes → WorkerState → WorkerState
unfolding give_up post_plain
after_write seq data' fed (none, contents) s = give_up fatal (record s { sah = some contents })
after_write seq data' fed (some count, contents) s =
    if count == length data'
    then post_plain (written seq count) (record s {
      sah = some contents;
      hasher = some (fed ++ data');
      bytes_written = s.bytes_written + count;
    })
    else give_up short_write (record s { sah = some contents })

unfoldable pub after_digest : Option ℕ → Option String → WorkerState → WorkerState
unfolding give_up post_plain resolve_closed
after_digest none sha s = give_up fatal s
after_digest (some file_size) none s = give_up fatal s
after_digest (some file_size) (some sha) s = resolve_closed by_finalize (
    post_plain
      (done (record { sha256_hex = sha; bytes_written = s.bytes_written; file_size = file_size }))
      s)

-- The lock's callback goes on once closedDeferred is resolved, before the next message: the file is
-- closed, and so is the worker.
unfoldable pub close_if : Option Closing → Option Bytes → WorkerState → WorkerState
unfolding post_plain
close_if (some closing) (some contents) s = record (post_plain closed s) {
  sah = none;
  ended = true;
}
close_if (some closing) none s = s
close_if none contents s = s

-- An error that nothing caught, or a rejected promise.
unfoldable pub on_error : WorkerState → WorkerState
unfolding give_up close_if
on_error s = let s' = give_up fatal s in if s.ended then s else close_if s'.closing s'.sah s'

module _ (storage : Storage) where
  unfoldable pub chunk_of : ℕ → Bytes → Option Bytes → Option Bytes → WorkerState → WorkerState
  unfolding after_write
  chunk_of seq data' (some contents) (some fed) s =
      after_write seq data' fed (storage.write contents (seq * chunk_data_max_bytes) data') s
  chunk_of seq data' none fed s = s
  chunk_of seq data' (some contents) none s = s

  unfoldable pub handle_chunk : ℕ → Bytes → WorkerState → WorkerState
  unfolding chunk_of
  handle_chunk seq data' s = chunk_of seq data' s.sah s.hasher s

  unfoldable pub finalize_of : Option Bytes → Option Bytes → Bool → WorkerState → WorkerState
  unfolding after_digest resolve_closed
  finalize_of (some contents) (some fed) true s =
      after_digest (storage.get_size contents) (storage.digest fed) s
  finalize_of (some contents) (some fed) false s = resolve_closed by_abort s
  finalize_of none fed handle s = resolve_closed by_abort s
  finalize_of (some contents) none handle s = resolve_closed by_abort s

  unfoldable pub handle_finalize : WorkerState → WorkerState
  unfolding finalize_of
  handle_finalize s = finalize_of s.sah s.hasher s.file_handle s

  unfoldable pub on_message : WorkerIn → WorkerState → WorkerState
  unfolding handle_chunk handle_finalize resolve_closed
  on_message (init tid size) s = if s.initialised then s else record s { initialised = true }
  on_message (chunk seq data') s = handle_chunk seq data' s
  on_message finalize s = handle_finalize s
  on_message abort s = resolve_closed by_abort s

  -- A message to the worker, which takes none any more once it has closed itself.
  unfoldable pub receive : WorkerIn → WorkerState → WorkerState
  unfolding on_message close_if
  receive msg s = let s' = on_message msg s in if s.ended then s else close_if s'.closing s'.sah s'

  unfoldable pub receive_all : List WorkerIn → WorkerState → WorkerState
  unfolding receive
  receive_all [] s = s
  receive_all (msg ∷ msgs) s = receive_all msgs (receive msg s)

-- The lock is granted after 'init': the file is opened and emptied, or that threw.
unfoldable pub lock_granted : Bool → WorkerState → WorkerState
unfolding post_plain close_if
lock_granted opened s =
    if opened
    then (let s' =
          post_plain ready (record s { file_handle = true; sah = some []; hasher = some [] }) in
        close_if s'.closing s'.sah s')
    else record (post_plain closed (post_plain fatal s)) { sah = none; ended = true }
