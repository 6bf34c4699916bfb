-- ===== src/Transfer/Receiver/Invariant/Accept.antt =====
-- Accepting an offer, at each of its waits, keeps the invariant of the receiver.
use unseen_fyi.Prelude.{
  ℕ, ◌+◌, ◌*◌, ◌≤◌, ◌<◌, ◌≡◌, refl, sym, subst, Bool, false, not, Option, none, some, String, List,
  [], ◌==◌, min, is_some, arith,
}
use unseen_fyi.Transfer.Chunks.{chunk_data_max_bytes}
use unseen_fyi.Transfer.Receiver.{
  Worker, Offer, IncomingState, offer_pending, receiving, Effect, Accepting, for_ready, for_sent,
  State,
}
use unseen_fyi.Transfer.Receiver.Acceptance.{
  pending_of, Spawn, start_worker, accept_pending, accept_offer, is_current, worker_ready_known,
  new_receiving, accept_sent, continue_accept,
}
use unseen_fyi.Transfer.Receiver.Invariant.{
  Inv, SizeOk, CurrentOk, Agrees, TakenUp, AcceptOk, posted, ReceivingOk, emit-Inv,
}
use unseen_fyi.Transfer.Receiver.Invariant.Ends.{Inv-if, decline_and_reset-Inv, abandon-Inv}

CurrentOk-bump :
    (i : Option IncomingState) (session serial worker : ℕ) (out : List Effect)
    → CurrentOk i session serial worker out
    → CurrentOk i session serial (worker + 1) out
CurrentOk-bump none session serial worker out h = tt
CurrentOk-bump (some (offer_pending o)) session serial worker out h = h
CurrentOk-bump (some (receiving r)) session serial worker out (k, l, h) = (k, omega arith, h)

AcceptOk-bump :
    (i : Option IncomingState) (a : Option Accepting) (serial worker : ℕ) (out : List Effect)
    → AcceptOk i a serial worker out
    → AcceptOk i a serial (worker + 1) out
AcceptOk-bump i none serial worker out h = tt
AcceptOk-bump i (some (for_ready o w)) serial worker out (k, l, m, h) = (k, l, omega arith, h)
AcceptOk-bump i (some (for_sent o w)) serial worker out (k, l, m, h) = (k, l, omega arith, h)

-- A new worker was given nothing.
next_worker-Inv : (s : State) → Inv s → Inv (record s { next_worker = s.next_worker + 1 })
next_worker-Inv s h = record {
  parts = record {
    capped = h.parts.capped;
    current = CurrentOk-bump s.incoming_active _ _ _ _ h.parts.current;
    taken_up = AcceptOk-bump s.incoming_active s.accepting _ _ _ h.parts.taken_up;
    unused = λ w k. h.parts.unused w (omega arith);
  };
}

accepting-Inv :
    (a : Option Accepting) (s : State)
    → AcceptOk s.incoming_active a s.next_serial s.next_worker s.out
    → Inv s
    → Inv (record s { accepting = a })
accepting-Inv a s k h = record {
  parts = record {
    capped = h.parts.capped;
    current = h.parts.current;
    taken_up = k;
    unused = h.parts.unused;
  };
}

pending-TakenUp :
    (i : Option IncomingState) (o : Offer) (session serial worker : ℕ) (out : List Effect)
    → pending_of i ≡ some o
    → CurrentOk i session serial worker out
    → ((w : Worker) → worker ≤ w → posted w out ≡ [])
    → TakenUp i o worker serial (worker + 1) out
pending-TakenUp none o session serial worker out e h k = ground arith
pending-TakenUp (some (receiving r)) o session serial worker out e h k = ground arith
pending-TakenUp (some (offer_pending c)) o session serial worker out e (fits, lt) k =
    let same : c ≡ o = ground arith in
    (
      (λ _. same),
      subst (λ (x : Offer). x.serial < serial) same lt,
      omega arith,
      k worker (omega arith),
    )

start_worker-Inv :
    (sp : Spawn) (o : Offer) (dir : Option String) (s : State)
    → pending_of s.incoming_active ≡ some o
    → Inv s
    → Inv (start_worker sp o dir s)
unfolding start_worker
start_worker-Inv sp o none s e h = decline_and_reset-Inv o.tid none s h
start_worker-Inv sp o (some dir) s e h =
    let next : Inv (record s { next_worker = s.next_worker + 1 }) = next_worker-Inv s h in
    Inv-if (not sp.spawned) _ _ (λ _. decline_and_reset-Inv o.tid none s h)
      (λ _.
        Inv-if (not sp.posted) _ _ (λ _. decline_and_reset-Inv o.tid (some s.next_worker) _ next)
          (λ _.
            emit-Inv _ _ (λ v. refl)
              (accepting-Inv (some (for_ready o s.next_worker)) _
                (pending-TakenUp s.incoming_active o _ _ _ _ e h.parts.current h.parts.unused)
                next)))

accept_pending-Inv :
    (sp : Spawn) (p : Option Offer) (s : State)
    → pending_of s.incoming_active ≡ p
    → Inv s
    → Inv (accept_pending sp p s)
unfolding accept_pending
accept_pending-Inv sp none s e h = h
accept_pending-Inv sp (some o) s e h =
    Inv-if (is_some s.accepting) _ _ (λ _. h)
      (λ _. start_worker-Inv sp o s.current_opaque_dir s e h)

pub accept_offer-Inv : (sp : Spawn) (s : State) → Inv s → Inv (accept_offer sp s)
unfolding accept_offer
accept_offer-Inv sp s h = accept_pending-Inv sp _ s refl h

worker_ready_known-Inv :
    (ready : Bool) (o : Offer) (w : Worker) (s : State)
    → TakenUp s.incoming_active o w s.next_serial s.next_worker s.out
    → Inv s
    → Inv (worker_ready_known ready o w s)
unfolding worker_ready_known
worker_ready_known-Inv ready o w s k h =
    let clear : Inv (record s { accepting = none }) = accepting-Inv none s tt h in
    let waits : Inv (record s { accepting = some (for_sent o w) }) =
      accepting-Inv (some (for_sent o w)) s k h in
    Inv-if (not (is_current o (pending_of s.incoming_active))) _ _ (λ _. abandon-Inv w o _ clear)
      (λ _.
        Inv-if (not ready) _ _ (λ _. decline_and_reset-Inv o.tid (some w) _ clear)
          (λ _.
            emit-Inv _ (record s { offer_pending_timer = none; accepting = some (for_sent o w) })
              (λ v. refl) (record { parts = waits.parts })))

-- The offer that is current is the one that was taken up, so it still fits.
taken-SizeOk :
    (i : Option IncomingState) (o : Offer) (session serial worker : ℕ) (out : List Effect)
    → not (is_current o (pending_of i)) ≡ false
    → Agrees i o
    → CurrentOk i session serial worker out
    → SizeOk session o.size
taken-SizeOk none o session serial worker out e k h = ground arith
taken-SizeOk (some (receiving r)) o session serial worker out e k h = ground arith
taken-SizeOk (some (offer_pending c)) o session serial worker out e k (fits, lt) =
    subst (λ (x : Offer). SizeOk session x.size) (k (same_serial c.serial o.serial e)) fits
  where
    same_serial : (a b : ℕ) → not (a == b) ≡ false → a ≡ b
    same_serial a b h = ground arith

new_receiving-ReceivingOk :
    (o : Offer) (w : Worker) (out : List Effect)
    → posted w out ≡ []
    → ReceivingOk (new_receiving o w) out
unfolding new_receiving
new_receiving-ReceivingOk o w out h = record {
  sized = refl;
  counted = sym (min-zero o.size);
  in_range = omega arith;
  short = omega arith;
  queued = omega arith;
  no_credit = λ lt. ground arith;
  numbered = tt;
  in_order = h;
  complete = λ e. ground arith;
  final = λ e. ground arith;
}
  where
    min-zero : (n : ℕ) → min (0 * chunk_data_max_bytes) n ≡ 0
    min-zero n = ground arith

accept_sent-Inv :
    (sent : Bool) (o : Offer) (w : Worker) (s : State)
    → TakenUp s.incoming_active o w s.next_serial s.next_worker s.out
    → Inv s
    → Inv (accept_sent sent o w s)
unfolding accept_sent
accept_sent-Inv sent o w s (k, l, m, e) h =
    let clear : Inv (record s { accepting = none }) = accepting-Inv none s tt h in
    Inv-if (not (is_current o (pending_of s.incoming_active))) _ _ (λ _. abandon-Inv w o _ clear)
      (λ now.
        Inv-if (not sent) _ _
          (λ _.
            emit-Inv _ (record s { accepting = none; offer_pending_timer = some o.tid }) (λ v. refl)
              (record { parts = clear.parts }))
          (λ _. record {
            parts = record {
              capped = h.parts.capped;
              current = (
                taken-SizeOk s.incoming_active o _ _ _ _ now k h.parts.current,
                m,
                new_receiving-ReceivingOk o w s.out e,
              );
              taken_up = tt;
              unused = h.parts.unused;
            };
          }))

pub continue_accept-Inv :
    (answer : Bool) (a : Option Accepting) (s : State)
    → AcceptOk s.incoming_active a s.next_serial s.next_worker s.out
    → Inv s
    → Inv (continue_accept answer a s)
unfolding continue_accept
continue_accept-Inv answer none s k h = h
continue_accept-Inv answer (some (for_ready o w)) s k h = worker_ready_known-Inv answer o w s k h
continue_accept-Inv answer (some (for_sent o w)) s k h = accept_sent-Inv answer o w s k h
