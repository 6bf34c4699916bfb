-- ===== src/Transfer/Receiver/FailedPost.antt =====
-- What file-receive.ts does when the post of a queued chunk to the worker throws.
use unseen_fyi.Prelude.{
  ℕ, ◌+◌, ◌≡◌, refl, sym, ap, subst, Bool, true, false, not, ◌||◌, none, some, List, ◌∷◌, length,
  ltb, is_some, if◌then◌else◌,
}
use unseen_fyi.Transfer.Receiver.{
  Chunk, Receiving, receiving, State, emit, finish_transfer, drop_incoming, reset_transfer_locals,
  integrity_failure_abort, notify_receive_progress, percent_of, same_percent, get_receiving_state,
  is_receiving, receiving_of,
}
use unseen_fyi.Transfer.Receiver.Arrival.{
  maybe_finalize, post_chunk_to_worker, maybe_send_progress, write_back, post_next, acknowledged,
  handle_worker_written,
}

-- No percentage was told to the view since the last transfer.
abbrev Untold : State → Type 0
Untold s = s.last_receive_notify_percent ≡ none

Untold-if : (b : Bool) (x y : State) → Untold x → Untold y → Untold (if b then x else y)
Untold-if true x y h k = h
Untold-if false x y h k = k

Untold-if_pair :
    (b : Bool) (x y : Receiving × State) → Untold x.1 → Untold y.1 → Untold (if b then x else y).1
Untold-if_pair true x y h k = h
Untold-if_pair false x y h k = k

integrity_failure_abort-Untold : (r : Receiving) (s : State) → Untold (integrity_failure_abort r s)
unfolding integrity_failure_abort finish_transfer drop_incoming reset_transfer_locals emit
integrity_failure_abort-Untold r s = refl

maybe_send_progress-Untold :
    (now : ℕ) (r : Receiving) (s : State) → Untold s → Untold (maybe_send_progress now r s)
unfolding maybe_send_progress emit
maybe_send_progress-Untold now r s h =
    Untold-if (ltb now (s.last_progress_at + 1000)) s _ h
      (Untold-if (ltb r.bytes_written (s.last_progress_bytes + 1_048_576)) s _ h h)

maybe_finalize-Untold : (r : Receiving) (s : State) → Untold s → Untold (maybe_finalize r s).1
unfolding maybe_finalize emit
maybe_finalize-Untold r s h =
    Untold-if_pair
      (r.finalize_requested
        || not (is_some r.sender_sha256)
        || ltb 0 (length r.pending_chunk_queue)
        || ltb r.bytes_written r.expected_size)
      (r, s) _ h h

write_back-Untold : (r : Receiving) (s : State) → Untold s → Untold (write_back r s)
unfolding write_back
write_back-Untold r s h = Untold-if (is_receiving s) _ _ h h

notify_revives :
    (r : Receiving) (s : State) → Untold s → is_receiving (notify_receive_progress r s) ≡ true
unfolding notify_receive_progress is_receiving get_receiving_state
notify_revives r s h =
    ap
      (λ last. is_some (
        receiving_of
          (if same_percent last (percent_of r) then s else record s {
            last_receive_notify_percent = some (percent_of r);
            incoming_active = some (receiving r);
          }).incoming_active))
      h

post_next-Untold :
    (queue : List Chunk) (c : Chunk) (cs : List Chunk) (r : Receiving) (s : State)
    → queue ≡ c ∷ cs
    → Untold (post_next true queue r s).1
unfolding post_next post_chunk_to_worker
post_next-Untold queue c cs r s e =
    subst (λ q. Untold (post_next true q r s).1) (sym e)
      (integrity_failure_abort-Untold (record r { pending_chunk_queue = cs }) s)

-- While a chunk waits in the queue and the worker says that one is written: if the post of the
-- waiting chunk throws, the transfer is ended (it would not be under way after
-- `integrity_failure_abort`), but once `handle_worker_written` returns a transfer comes in again.
pub handle_worker_written_revives :
    (now bytes : ℕ) (r : Receiving) (c : Chunk) (cs : List Chunk) (s : State)
    → r.pending_chunk_queue ≡ c ∷ cs
    → (is_receiving (integrity_failure_abort r s) ≡ false)
      × (is_receiving (handle_worker_written true now bytes r s) ≡ true)
unfolding handle_worker_written acknowledged is_receiving get_receiving_state
    integrity_failure_abort finish_transfer drop_incoming reset_transfer_locals emit
handle_worker_written_revives now bytes r c cs s e =
    let (r', posted) = post_next true r.pending_chunk_queue (acknowledged bytes r) s in
    let (r'', settled) = maybe_finalize r' (maybe_send_progress now r' posted) in
    (
      refl,
      notify_revives r'' (write_back r'' settled) (
          write_back-Untold r'' settled (
            maybe_finalize-Untold r' _ (
              maybe_send_progress-Untold now r' posted
                (post_next-Untold r.pending_chunk_queue c cs _ s e)))),
    )
