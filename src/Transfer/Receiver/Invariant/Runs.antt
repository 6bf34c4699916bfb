-- ===== src/Transfer/Receiver/Invariant/Runs.antt =====
-- The receiver's invariant over any sequence of events.
use unseen_fyi.Prelude.{
  ℕ, sym, subst, ◌≤◌, ◌≡◌, refl, true, false, Option, none, String, List, [], ◌∷◌, ltb, arith,
}
use unseen_fyi.Transfer.Receiver.{State, session_receive_cap_bytes}
use unseen_fyi.Transfer.Receiver.Events.{
  Event, offered, accept_clicked, answered, decline_clicked, cancel_requested, chunk_arrived,
  completed, cancelled, worker_said, worker_failed, offer_timed, stall_timed, cleaned, hidden,
  ws_closed, shut_down, sender_changed, step, run,
}
use unseen_fyi.Transfer.Receiver.Invariant.{Inv, Parts}
use unseen_fyi.Transfer.Receiver.Invariant.Ends.{
  Inv-if, cleanup_finished-Inv, handle_worker_error-Inv, offer_timer_fires-Inv,
  stall_timer_fires-Inv, decline_offer-Inv, cancel_active-Inv, dispatch_cancel-Inv, page_hidden-Inv,
  on_ws_close-Inv, shutdown-Inv,
}
use unseen_fyi.Transfer.Receiver.Invariant.Offers.{dispatch_offer-Inv}
use unseen_fyi.Transfer.Receiver.Invariant.Accept.{accept_offer-Inv, continue_accept-Inv}
use unseen_fyi.Transfer.Receiver.Invariant.Written.{
  handle_worker_message-Inv, dispatch_complete-Inv,
}
use unseen_fyi.Transfer.Receiver.Invariant.Arrived.{receive_chunk-Inv}

-- The post of a queued chunk, when the worker has written one, does not throw.
abbrev pub Posts : Event → Type 0
Posts (worker_said throws now msg w) = throws ≡ false
Posts _ = Unit {0}

abbrev pub AllPost : List Event → Type 0
AllPost [] = Unit {0}
AllPost (e ∷ events) = Posts e × AllPost events

-- Before the first event: nothing comes in, nothing was asked.
pub record Starts (s : State) : Type 0 where
  pub idle : s.incoming_active ≡ none
  pub not_accepting : s.accepting ≡ none
  pub nothing_received : s.session_received_bytes ≡ 0
  pub nothing_out : s.out ≡ []

module _ (sanitize : String → Option String) where
  step-Inv : (e : Event) (s : State) → Posts e → Inv s → Inv (step sanitize e s)
  unfolding step
  step-Inv (offered tid name size) s p h = dispatch_offer-Inv sanitize tid name size s h
  step-Inv (accept_clicked sp) s p h = accept_offer-Inv sp s h
  step-Inv (answered answer) s p h = continue_accept-Inv answer s.accepting s h.parts.taken_up h
  step-Inv decline_clicked s p h = decline_offer-Inv s h
  step-Inv (cancel_requested reason) s p h = cancel_active-Inv reason s h
  step-Inv (chunk_arrived throws parsed) s p h = receive_chunk-Inv throws parsed _ s refl h
  step-Inv (completed tid sha) s p h = dispatch_complete-Inv tid sha s h
  step-Inv (cancelled tid side reason) s p h = dispatch_cancel-Inv tid side reason s h
  step-Inv (worker_said false now msg w) s p h = handle_worker_message-Inv now msg w s h
  step-Inv (worker_said true now msg w) s p h = ground arith
  step-Inv (worker_failed w) s p h = handle_worker_error-Inv w s h
  step-Inv offer_timed s p h = offer_timer_fires-Inv s h
  step-Inv stall_timed s p h = stall_timer_fires-Inv s h
  step-Inv cleaned s p h = Inv-if (ltb 0 s.failing) _ _ (λ _. cleanup_finished-Inv s h) (λ _. h)
  step-Inv hidden s p h = page_hidden-Inv s h
  step-Inv ws_closed s p h = on_ws_close-Inv s h
  step-Inv shut_down s p h = shutdown-Inv s h
  step-Inv (sender_changed active) s p h = record { parts = h.parts }

  run_from-Inv :
      (events : List Event) (s : State) → AllPost events → Inv s → Inv (run sanitize events s)
  unfolding run
  run_from-Inv [] s p h = h
  run_from-Inv (e ∷ events) s (p, rest) h =
      run_from-Inv events (step sanitize e s) rest (step-Inv e s p h)

  Starts-Inv : (s : State) → Starts s → Inv s
  Starts-Inv s h = record {
    parts =
        subst (λ i. Parts i s.session_received_bytes s.accepting s.next_serial s.next_worker s.out)
          (sym h.idle)
          (subst (λ a. Parts none s.session_received_bytes a s.next_serial s.next_worker s.out)
            (sym h.not_accepting)
            (subst (λ o. Parts none s.session_received_bytes none s.next_serial s.next_worker o)
              (sym h.nothing_out)
              (record {
                capped = few s.session_received_bytes h.nothing_received;
                current = tt;
                taken_up = tt;
                unused = λ w k. refl;
              })));
  }
    where
      few : (n : ℕ) → n ≡ 0 → n ≤ session_receive_cap_bytes
      few n e = omega arith

  -- After any events, in any order, in which the post of a queued chunk never throws, the receiver's
  -- invariant holds: the bytes kept in the session, with those of the transfer that comes in, are
  -- within the session's cap; its size is at most the greatest size of a file; the bytes counted are
  -- those of the chunks that arrived; its worker was posted the chunks 0, 1, 2, … in order, each once,
  -- up to those in the queue, which go on from there, are at most 32, and wait only without credit;
  -- the sender's checksum is set only once all bytes have arrived, and the end is asked only with it.
  pub run_receiver-Inv :
      (events : List Event) (s : State) → Starts s → AllPost events → Inv (run sanitize events s)
  run_receiver-Inv events s h p = run_from-Inv events s p (Starts-Inv s h)
