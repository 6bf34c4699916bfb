-- ===== src/Transfer/Sender/Examples.antt =====
-- The theorem about the send loop at concrete inputs, and an offer that is sent to its end.
use unseen_fyi.Prelude.{◌≡◌, refl, true, false, none, some, [], ◌∷◌, arith}
use unseen_fyi.Prelude.Result.{ok}
use unseen_fyi.Transfer.Sender.{PendingChunk, Described, State, generate_tid_hex}
use unseen_fyi.Transfer.Sender.Loop.{loop_turn}
use unseen_fyi.Transfer.Sender.Drain.{rounds, draining, Completed, rounds-Completed}

abbrev example_idle : State
example_idle = record {
  transfer_active = none;
  is_incoming = false;
  attachment_map = [];
  pending_send_queue = [];
  active_worker = some 0;
  send_loop_running = true;
  worker_final_received = false;
  pending_sha256_hex = none;
  sender_file_ref = none;
  last_send_notify_percent = none;
  next_worker = 1;
  out = [];
}

abbrev example_described : Described
example_described = record { tid = "0100000000000000"; name = "f"; size = 3 }

abbrev example_chunk : PendingChunk
example_chunk = record {
  seq = 0;
  payload = 1 ∷ 0 ∷ 0 ∷ 0 ∷ 0 ∷ 0 ∷ 0 ∷ 0 ∷ 0 ∷ 0 ∷ 0 ∷ 0 ∷ 7 ∷ 8 ∷ 9 ∷ [];
}

rounds-Completed_example : Completed 0 example_described (example_chunk ∷ []) "abc" [] (
    rounds 1 0 "0100000000000000" 100 (
      loop_turn 0 "0100000000000000"
        (some 100)
        (draining example_idle example_described 0 0 (example_chunk ∷ []) "abc")))
rounds-Completed_example =
    rounds-Completed 0 100 (example_chunk ∷ []) example_idle example_described 0 0 "abc"
      (omega arith)

-- The first draw is all zero, the second is not.
example_tid_drawn : generate_tid_hex 2 (λ n. n ∷ 0 ∷ []) ≡ ok "0100"
unfolding generate_tid_hex
example_tid_drawn = refl
