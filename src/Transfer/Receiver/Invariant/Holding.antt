-- ===== src/Transfer/Receiver/Invariant/Holding.antt =====
-- A handler works on the object of the transfer, which is the value of `incomingActive`, and on the
-- state: what holds of the two on the way.
use mathlib.Core.List.{append-nil}
use unseen_fyi.Prelude.{
  ℕ, ◌+◌, ◌≤◌, ◌<◌, ◌≡◌, ◌≢◌, refl, sym, ap, ◌∙◌, subst, Bool, true, false, Option, none, some,
  List, [], ◌∷◌, ◌++◌, ltb, is_some, ◌==◌, arith, if◌then◌else◌,
}
use unseen_fyi.Wire.Bytes.{Bytes}
use unseen_fyi.Transfer.Receiver.{
  Worker, Receiving, IncomingState, offer_pending, receiving, chunk, Effect, post, Accepting,
  for_ready, for_sent, State, emit, put, receiving_of, get_receiving_state, is_receiving,
  progress_min_interval_ms, progress_min_bytes,
}
use unseen_fyi.Transfer.Receiver.Arrival.{maybe_send_progress}
use unseen_fyi.Transfer.Receiver.Invariant.{
  Inv, Parts, SizeOk, AcceptOk, posted, posted-append, ReceivingOk, IsPlain, emit-Inv,
}

pub record Holding (r : Receiving) (s : State) : Type 0 where
  pub holds : Inv (put r s)
  pub is_held : is_receiving s ≡ true

-- While a transfer comes in, no offer is being accepted.
pub not_accepting :
    (r : Receiving) (a : Option Accepting) (serial worker : ℕ) (out : List Effect)
    → AcceptOk (some (receiving r)) a serial worker out
    → (i : Option IncomingState) (serial' worker' : ℕ) (out' : List Effect)
    → AcceptOk i a serial' worker' out'
not_accepting r none serial worker out h i serial' worker' out' = tt
not_accepting r (some (for_ready o w)) serial worker out (k, l, m, e) i serial' worker' out' =
    absurd k
not_accepting r (some (for_sent o w)) serial worker out (k, l, m, e) i serial' worker' out' =
    absurd k

current-Holding :
    (i : Option IncomingState) (r : Receiving) (s : State)
    → s.incoming_active ≡ i
    → receiving_of i ≡ some r
    → Inv s
    → Holding r s
unfolding is_receiving get_receiving_state
current-Holding none r s e same h = ground arith
current-Holding (some (offer_pending o)) r s e same h = ground arith
current-Holding (some (receiving old)) r s e same h = record {
  holds = record {
    parts =
        subst (λ i. Parts i s.session_received_bytes s.accepting s.next_serial s.next_worker s.out)
          (e ∙ ap (λ x. some (receiving x)) (the_same old r same)) h.parts;
  };
  is_held = ap (λ i. is_some (receiving_of i)) e;
}
  where
    the_same : (a b : Receiving) → Option.some a ≡ some b → a ≡ b
    the_same a b h = ground arith

pub get_receiving_state-Holding :
    (r : Receiving) (s : State) → get_receiving_state s ≡ some r → Inv s → Holding r s
unfolding get_receiving_state
get_receiving_state-Holding r s e h = current-Holding s.incoming_active r s refl e h

pub emit-Holding :
    (e : Effect) (r : Receiving) (s : State) → IsPlain e → Holding r s → Holding r (emit e s)
unfolding emit is_receiving get_receiving_state
emit-Holding e r s p h = record {
  holds = record { parts = (emit-Inv e (put r s) p h.holds).parts };
  is_held = h.is_held;
}

posted-other :
    (v w : Worker) (n : ℕ) (b : Bytes) (out : List Effect)
    → w ≢ v
    → posted w (out ++ post v (chunk n b) ∷ []) ≡ posted w out
posted-other v w n b out ne =
    posted-append w out (post v (chunk n b) ∷ [])
    ∙ ap (λ l. posted w out ++ l) (skipped v w ne)
    ∙ append-nil (posted w out)
  where
    skipped : (v w : Worker) → w ≢ v → (if v == w then n ∷ [] else []) ++ [] ≡ []
    skipped v w ne = ground arith

pub posted-own :
    (v : Worker) (n : ℕ) (b : Bytes) (out : List Effect)
    → posted v (out ++ post v (chunk n b) ∷ []) ≡ posted v out ++ n ∷ []
posted-own v n b out =
    posted-append v out (post v (chunk n b) ∷ []) ∙ ap (λ l. posted v out ++ l) (listed v)
  where
    listed : (v : Worker) → (if v == v then n ∷ [] else []) ++ [] ≡ n ∷ []
    listed v = ground arith

-- The object changes, and maybe a chunk is posted to its worker.
pub put-Holding :
    (old r : Receiving) (s : State)
    → Holding old s
    → r.size ≡ old.size
    → r.worker ≡ old.worker
    → ReceivingOk r s.out
    → Holding r s
unfolding is_receiving get_receiving_state
put-Holding old r s h size worker k =
    let (fits, lt, _) = h.holds.parts.current in
    record {
      holds = record {
        parts = record {
          capped = h.holds.parts.capped;
          current = (
            subst (SizeOk s.session_received_bytes) (sym size) fits,
            subst (λ n. n < s.next_worker) (sym worker) lt,
            k,
          );
          taken_up =
              not_accepting old s.accepting _ _ _ h.holds.parts.taken_up (some (receiving r))
                s.next_serial s.next_worker s.out;
          unused = h.holds.parts.unused;
        };
      };
      is_held = h.is_held;
    }

pub post-Holding :
    (old r : Receiving) (n : ℕ) (b : Bytes) (s : State)
    → Holding old s
    → r.size ≡ old.size
    → r.worker ≡ old.worker
    → ReceivingOk r (s.out ++ post r.worker (chunk n b) ∷ [])
    → Holding r (emit (post r.worker (chunk n b)) s)
unfolding emit is_receiving get_receiving_state
post-Holding old r n b s h size worker k =
    let (fits, lt, _) = h.holds.parts.current in
    let below : r.worker < s.next_worker = subst (λ n. n < s.next_worker) (sym worker) lt in
    record {
      holds = record {
        parts = record {
          capped = h.holds.parts.capped;
          current = (subst (SizeOk s.session_received_bytes) (sym size) fits, below, k);
          taken_up =
              not_accepting old s.accepting _ _ _ h.holds.parts.taken_up (some (receiving r))
                s.next_serial s.next_worker (s.out ++ post r.worker (chunk n b) ∷ []);
          unused = λ w le.
              posted-other r.worker w n b s.out (apart w r.worker s.next_worker le below)
              ∙ h.holds.parts.unused w le;
        };
      };
      is_held = h.is_held;
    }
  where
    apart : (w v next : ℕ) → next ≤ w → v < next → w ≢ v
    apart w v next h k = ground arith

Holding-if :
    (r : Receiving) (b : Bool) (x y : State)
    → (b ≡ true → Holding r x)
    → (b ≡ false → Holding r y)
    → Holding r (if b then x else y)
Holding-if r true x y h k = h refl
Holding-if r false x y h k = k refl

pub maybe_send_progress-Holding :
    (now : ℕ) (r : Receiving) (s : State) → Holding r s → Holding r (maybe_send_progress now r s)
unfolding maybe_send_progress is_receiving get_receiving_state
maybe_send_progress-Holding now r s h =
    Holding-if r (ltb now (s.last_progress_at + progress_min_interval_ms)) _ _ (λ _. h)
      (λ _.
        Holding-if r (ltb r.bytes_written (s.last_progress_bytes + progress_min_bytes)) _ _ (λ _. h)
          (λ _.
            emit-Holding _ r
              (record s { last_progress_at = now; last_progress_bytes = r.bytes_written })
              (λ v. refl)
              (record { holds = record { parts = h.holds.parts }; is_held = h.is_held })))
