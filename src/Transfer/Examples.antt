-- ===== src/Transfer/Examples.antt =====
-- The theorems about the file transfer at concrete inputs: a file of three bytes.
use unseen_fyi.Prelude.{
  ◌≡◌, ◌⊎◌, refl, ap, true, false, none, some, String, List, [], ◌∷◌, ◌++◌, length, replicate,
  get_elem?, arith,
}
use unseen_fyi.Prelude.Result.{ok}
use unseen_fyi.Wire.Bytes.{Bytes}
use unseen_fyi.Channel.Receive.{accepted}
use unseen_fyi.Transfer.Chunks.{to_hex, build_chunk_plaintext, parse_chunk_plaintext, all_pieces}
use unseen_fyi.Transfer.Chunks.Cuts.{Cuts, stream_bytes, all_pieces-Cuts, IsPiece, Cuts-IsPiece}
use unseen_fyi.Transfer.Chunks.Plaintext.{parse_chunk_plaintext-build}
use unseen_fyi.Transfer.Receiver.{
  Receiving, init, finalize, State, integrity_failure_abort, get_receiving_state, is_receiving,
}
use unseen_fyi.Transfer.Receiver.Arrival.{
  dispatch_decrypted, Done, closed, written, done, is_intact, handle_worker_written,
  handle_worker_message, dispatch_complete, receive_chunk,
}
use unseen_fyi.Transfer.Receiver.Acceptance.{continue_accept, accept_offer, dispatch_offer}
use unseen_fyi.Transfer.Receiver.Events.{
  Event, offered, accept_clicked, answered, chunk_arrived, worker_said, completed, run,
}
use unseen_fyi.Transfer.Receiver.Invariant.{Inv}
use unseen_fyi.Transfer.Receiver.Invariant.Runs.{Starts, run_receiver-Inv}
use unseen_fyi.Transfer.Receiver.FailedPost.{handle_worker_written_revives}
use unseen_fyi.Transfer.Receiver.Passed.{Took}
use unseen_fyi.Transfer.Receiver.Honest.{dispatch_decrypted-piece}
use unseen_fyi.Transfer.ReceiveWorker.{Storage, initial_state, receive, receive_all, lock_granted}
use unseen_fyi.Transfer.ReceiveWorker.Stores.{
  Reliable, open_state, chunks_from, Failed, Stored, stores_file, finalize-intact,
}

abbrev example_start : State
example_start = record {
  incoming_active = none;
  transfer_active = false;
  attachment_map = [];
  session_received_bytes = 0;
  file_transfer_supported = true;
  file_transfer_ready = true;
  current_opaque_dir = some "room";
  session_cap_event_fired = false;
  last_progress_at = 0;
  last_progress_bytes = 0;
  last_receive_notify_percent = none;
  offer_pending_timer = none;
  receive_stall_timer = none;
  accepting = none;
  failing = 0;
  next_serial = 0;
  next_worker = 0;
  out = [];
}

abbrev example_tid : Bytes
example_tid = 1 ∷ replicate 7 0

abbrev example_id : String
example_id = to_hex example_tid

abbrev example_reads : List Bytes
example_reads = (7 ∷ 8 ∷ []) ∷ (9 ∷ []) ∷ []

-- An offer of three bytes that is accepted.
abbrev example_accepted : List Event
example_accepted =
    offered example_id "f" 3
    ∷ accept_clicked (record { spawned = true; posted = true })
    ∷ answered true
    ∷ answered true
    ∷ []

abbrev example_arrived : List Event
example_arrived =
    example_accepted
    ++ chunk_arrived false (record { tid_hex = example_id; seq = 0; payload = 7 ∷ 8 ∷ 9 ∷ [] }) ∷ []

abbrev example_events : List Event
example_events =
    example_arrived
    ++ worker_said false 5 (written 0 3) 0
      ∷ completed example_id "abc"
      ∷ worker_said false 9 (done (record { sha256_hex = "abc"; bytes_written = 3; file_size = 3 }))
          0
      ∷ []

example_start-Starts : Starts example_start
example_start-Starts = record {
  idle = refl;
  not_accepting = refl;
  nothing_received = refl;
  nothing_out = refl;
}

run_receiver-Inv_example : Inv (run (λ name. some name) example_events example_start)
run_receiver-Inv_example =
    run_receiver-Inv (λ name. some name) example_events example_start example_start-Starts
      (tt, (tt, (tt, (tt, (tt, (refl, (tt, (refl, tt))))))))

-- The whole exchange keeps three bytes.
example_kept : (run (λ name. some name) example_events example_start).session_received_bytes ≡ 3
unfolding run handle_worker_message dispatch_complete receive_chunk continue_accept accept_offer
    dispatch_offer to_hex
example_kept = refl

abbrev example_receiving : Receiving
example_receiving = record {
  tid = example_id;
  name = "f";
  size = 3;
  expected_size = 3;
  next_expected_seq = 1;
  network_received_bytes = 3;
  bytes_written = 0;
  receive_credit = 3;
  pending_chunk_queue = [];
  sender_sha256 = none;
  finalize_requested = false;
  worker = 0;
}

example_under_way :
    get_receiving_state (run (λ name. some name) example_arrived example_start)
    ≡ some example_receiving
unfolding run get_receiving_state receive_chunk continue_accept accept_offer dispatch_offer to_hex
example_under_way = refl

-- The transfer before its chunk has arrived.
abbrev example_waiting : Receiving
example_waiting = record example_receiving {
  next_expected_seq = 0;
  network_received_bytes = 0;
  receive_credit = 4;
}

example_accepted-waiting :
    get_receiving_state (run (λ name. some name) example_accepted example_start)
    ≡ some example_waiting
unfolding run get_receiving_state continue_accept accept_offer dispatch_offer to_hex
example_accepted-waiting = refl

example_pieces : all_pieces [] example_reads ≡ (7 ∷ 8 ∷ 9 ∷ []) ∷ []
unfolding all_pieces
example_pieces = refl

example_bytes : stream_bytes example_reads ≡ 7 ∷ 8 ∷ 9 ∷ []
unfolding stream_bytes
example_bytes = refl

example_accepted-Inv : Inv (run (λ name. some name) example_accepted example_start)
example_accepted-Inv =
    run_receiver-Inv (λ name. some name) example_accepted example_start example_start-Starts
      (tt, (tt, (tt, (tt, tt))))

dispatch_decrypted-piece_example :
    (s' : State) × (dispatch_decrypted false
        (ok (accepted (build_chunk_plaintext example_tid 0 (7 ∷ 8 ∷ 9 ∷ [])) 1))
        (run (λ name. some name) example_accepted example_start)
      ≡ ok s')
    × Took
        (record { seq = 0; payload = 7 ∷ 8 ∷ 9 ∷ [] })
        example_waiting
        (run (λ name. some name) example_accepted example_start)
        s'
dispatch_decrypted-piece_example =
    dispatch_decrypted-piece example_tid example_reads (7 ∷ 8 ∷ 9 ∷ []) 1 example_waiting
      (run (λ name. some name) example_accepted example_start) example_accepted-Inv refl refl
      (ap length example_bytes) (ap (λ ps. get_elem? ps 0) example_pieces) (omega arith)
      example_accepted-waiting

handle_worker_written_revives_example :
    (is_receiving (
        integrity_failure_abort
          (record example_receiving { pending_chunk_queue = record { seq = 1; payload = [] } ∷ [] })
          example_start)
      ≡ false)
    × (is_receiving (
          handle_worker_written true 5 3
            (record example_receiving {
              pending_chunk_queue = record { seq = 1; payload = [] } ∷ [];
            })
            example_start)
        ≡ true)
handle_worker_written_revives_example =
    handle_worker_written_revives 5 3
      (record example_receiving { pending_chunk_queue = record { seq = 1; payload = [] } ∷ [] })
      (record { seq = 1; payload = [] }) [] example_start refl

all_pieces-Cuts_example : Cuts (all_pieces [] example_reads) (stream_bytes example_reads)
all_pieces-Cuts_example = all_pieces-Cuts example_reads

Cuts-IsPiece_example : IsPiece (stream_bytes example_reads) 0 (7 ∷ 8 ∷ 9 ∷ [])
Cuts-IsPiece_example =
    Cuts-IsPiece (all_pieces-Cuts example_reads) 0 (7 ∷ 8 ∷ 9 ∷ [])
      (ap (λ ps. get_elem? ps 0) example_pieces)

parse_chunk_plaintext-build_example :
    parse_chunk_plaintext (build_chunk_plaintext example_tid 70000 (7 ∷ 8 ∷ []))
    ≡ some (record { tid_hex = example_id; seq = 70000; payload = 7 ∷ 8 ∷ [] })
parse_chunk_plaintext-build_example =
    parse_chunk_plaintext-build example_tid 70000 (7 ∷ 8 ∷ []) refl (omega arith)

-- A file system whose files only grow at their ends, and a checksum that is the same for all.
abbrev example_storage : Storage
example_storage = record {
  write = λ contents offset data'. (some (length data'), contents ++ data');
  get_size = λ contents. some (length contents);
  digest = λ contents. some "abc";
}

example_storage-Reliable : Reliable example_storage
example_storage-Reliable = record {
  appends = λ contents data' contents' count e k. cc e;
  size = λ contents n e. cc e;
}

stores_file_example :
    Stored (stream_bytes example_reads) (
      receive_all example_storage
        (chunks_from 0 (all_pieces [] example_reads))
        (lock_granted true (receive example_storage (init example_id 3) initial_state)))
    ⊎ Failed (
        receive_all example_storage
          (chunks_from 0 (all_pieces [] example_reads))
          (lock_granted true (receive example_storage (init example_id 3) initial_state)))
stores_file_example =
    stores_file example_storage example_storage-Reliable example_id 3 example_reads

finalize-intact_example :
    (msg : Done) × ((receive example_storage finalize (open_state (7 ∷ 8 ∷ 9 ∷ []) [])).out
      ≡ ([] ++ done msg ∷ []) ++ closed ∷ [])
    × ((receive example_storage finalize (open_state (7 ∷ 8 ∷ 9 ∷ []) [])).sah ≡ none)
    × (is_intact (record example_receiving { sender_sha256 = some "abc" }) msg ≡ true)
finalize-intact_example =
    finalize-intact example_storage example_storage-Reliable (7 ∷ 8 ∷ 9 ∷ []) []
      (record example_receiving { sender_sha256 = some "abc" }) "abc" 3 refl refl refl refl
