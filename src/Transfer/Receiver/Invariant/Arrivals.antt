-- ===== src/Transfer/Receiver/Invariant/Arrivals.antt =====
-- The chunks, the worker's answers and FILE_COMPLETE keep the invariant of the receiver.
use unseen_fyi.Prelude.{
  ◌≡◌, refl, Bool, true, false, not, ◌||◌, List, is_some, arith, if◌then◌else◌,
}
use unseen_fyi.Prelude.Eq.{string_eq}
use unseen_fyi.Transfer.Receiver.{
  Receiving, Effect, State, put, get_receiving_state, is_receiving, notify_receive_progress,
  percent_of, same_percent,
}
use unseen_fyi.Transfer.Receiver.Arrival.{maybe_finalize, write_back}
use unseen_fyi.Transfer.Receiver.Invariant.{Inv, ReceivingOk}
use unseen_fyi.Transfer.Receiver.Invariant.Ends.{Inv-if}
use unseen_fyi.Transfer.Receiver.Invariant.Holding.{Holding, emit-Holding, put-Holding}

write_back-Holding : (r : Receiving) (s : State) → Holding r s → Holding r (write_back r s)
unfolding write_back is_receiving get_receiving_state
write_back-Holding r s h = by_cases (is_receiving s) h.is_held
  where
    by_cases : (b : Bool) → b ≡ true → Holding r (if b then put r s else s)
    by_cases true e = record { holds = record { parts = h.holds.parts }; is_held = refl }
    by_cases false e = ground arith

-- The object that is put back is the state's.
pub write_back-Inv : (r : Receiving) (s : State) → Holding r s → Inv (write_back r s)
unfolding write_back
write_back-Inv r s h = Inv-if (is_receiving s) _ _ (λ _. h.holds) (λ e. ground arith)

notify_receive_progress-Inv :
    (r : Receiving) (s : State) → Inv s → Inv (put r s) → Inv (notify_receive_progress r s)
unfolding notify_receive_progress
notify_receive_progress-Inv r s h k =
    Inv-if (same_percent s.last_receive_notify_percent (percent_of r)) _ _ (λ _. h)
      (λ _. record { parts = k.parts })

pub settle-Inv :
    (r : Receiving) (s : State) → Holding r s → Inv (notify_receive_progress r (write_back r s))
settle-Inv r s h =
    notify_receive_progress-Inv r _ (write_back-Inv r s h) (write_back-Holding r s h).holds

-- `maybe_finalize` is right about the checksum.
asks_finalize : (a b c d : Bool) → (a || not b || c || d) ≡ false → b ≡ true
asks_finalize false true c d e = refl
asks_finalize true b c d e = ground arith
asks_finalize false false c d e = ground arith

finalize_requested-ReceivingOk :
    (r : Receiving) (out : List Effect)
    → is_some r.sender_sha256 ≡ true
    → ReceivingOk r out
    → ReceivingOk (record r { finalize_requested = true }) out
finalize_requested-ReceivingOk r out e h = record {
  sized = h.sized;
  counted = h.counted;
  in_range = h.in_range;
  short = h.short;
  queued = h.queued;
  no_credit = h.no_credit;
  numbered = h.numbered;
  in_order = h.in_order;
  complete = h.complete;
  final = λ _. e;
}

abbrev Held : Receiving × State → Type 0
Held (r, s) = Holding r s

Held-if :
    (b : Bool) (x y : Receiving × State)
    → (b ≡ true → Held x)
    → (b ≡ false → Held y)
    → Held (if b then x else y)
Held-if true x y h k = h refl
Held-if false x y h k = k refl

pub maybe_finalize-Holding :
    (r : Receiving) (s : State)
    → Holding r s
    → Holding (maybe_finalize r s).0 (maybe_finalize r s).1
unfolding maybe_finalize
maybe_finalize-Holding r s h =
    let (_, _, k) = h.holds.parts.current in
    Held-if _ _ _ (λ _. h)
      (λ e.
        emit-Holding _ _ s (λ v. refl)
          (put-Holding r (record r { finalize_requested = true }) s h refl refl
            (finalize_requested-ReceivingOk r s.out (asks_finalize r.finalize_requested _ _ _ e)
              k)))
