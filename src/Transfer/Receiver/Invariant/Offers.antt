-- ===== src/Transfer/Receiver/Invariant/Offers.antt =====
-- Taking up an offer and accepting it keeps the invariant of the receiver.
use unseen_fyi.Prelude.{
  ℕ, ◌+◌, ◌≤◌, ◌≡◌, refl, Bool, true, false, not, ◌||◌, Option, none, some, String, ◌==◌, ltb,
  is_some, arith, if◌then◌else◌,
}
use unseen_fyi.Prelude.Dict.{get}
use unseen_fyi.Prelude.Eq.{string_eq}
use unseen_fyi.Transfer.Receiver.{
  Offer, IncomingState, offer_pending, Accepting, for_ready, for_sent, State, max_file_size_bytes,
  session_receive_cap_bytes,
}
use unseen_fyi.Transfer.Receiver.Acceptance.{
  Verdict, decline, accept, note_session_cap, evaluate_named, install_offer_timeout, follow_verdict,
  evaluate_pre_accept, dispatch_offer,
}
use unseen_fyi.Transfer.Receiver.Invariant.{Inv, SizeOk, AcceptOk, emit-Inv}
use unseen_fyi.Transfer.Receiver.Invariant.Ends.{Inv-if, send_decline-Inv}

-- An offer that is accepted came while there was no other transfer, and fits.
abbrev Judged : ℕ → Verdict × State → Type 0
Judged size (decline reason, s) = Inv s
Judged size (accept name, s) =
    Inv s × (s.incoming_active ≡ none) × SizeOk s.session_received_bytes size

Judged-if :
    (size : ℕ) (b : Bool) (x y : Verdict × State)
    → (b ≡ true → Judged size x)
    → (b ≡ false → Judged size y)
    → Judged size (if b then x else y)
Judged-if size true x y h k = h refl
Judged-if size false x y h k = k refl

nothing_incoming : (b : Bool) (i : Option IncomingState) → (b || is_some i) ≡ false → i ≡ none
nothing_incoming b none e = refl
nothing_incoming true (some i) e = ground arith
nothing_incoming false (some i) e = ground arith

within : (n limit : ℕ) → ltb limit n ≡ false → n ≤ limit
within n limit e = ground arith

note_session_cap-Inv : (s : State) → Inv s → Inv (note_session_cap s)
unfolding note_session_cap
note_session_cap-Inv s h =
    Inv-if s.session_cap_event_fired _ _ (λ _. h)
      (λ _.
        emit-Inv _ (record s { session_cap_event_fired = true }) (λ v. refl)
          (record { parts = h.parts }))

evaluate_named-Judged :
    (tid : String) (size : ℕ) (name : Option String) (s : State)
    → 1 ≤ size
    → size ≤ max_file_size_bytes
    → Inv s
    → Judged size (evaluate_named tid size name s)
unfolding evaluate_named
evaluate_named-Judged tid size none s pos most h = h
evaluate_named-Judged tid size (some name) s pos most h =
    Judged-if size (s.transfer_active || is_some s.incoming_active) _ _ (λ _. h)
      (λ idle.
        Judged-if size (is_some (get s.attachment_map tid)) _ _ (λ _. h)
          (λ _.
            Judged-if size (ltb session_receive_cap_bytes (s.session_received_bytes + size)) _ _
              (λ _. note_session_cap-Inv s h)
              (λ fits.
                Judged-if size (not s.file_transfer_supported) _ _ (λ _. h)
                  (λ _.
                    Judged-if size (not s.file_transfer_ready) _ _ (λ _. h)
                      (λ _. (
                        h,
                        nothing_incoming s.transfer_active s.incoming_active idle,
                        (pos, most, within _ _ fits),
                      ))))))

-- An offer that was taken up is an earlier one than the new one.
later_offer :
    (i : Option IncomingState) (c : Offer) (a : Option Accepting) (serial worker : ℕ) (out : _)
    → c.serial ≡ serial
    → AcceptOk i a serial worker out
    → AcceptOk (some (offer_pending c)) a (serial + 1) worker out
later_offer i c none serial worker out e h = tt
later_offer i c (some (for_ready o w)) serial worker out e (k, l, m, h) =
    ((λ same. ground arith), omega arith, m, h)
later_offer i c (some (for_sent o w)) serial worker out e (k, l, m, h) =
    ((λ same. ground arith), omega arith, m, h)

follow_verdict-Inv :
    (tid : String) (size : ℕ) (judged : Verdict × State)
    → Judged size judged
    → Inv (follow_verdict tid size judged)
unfolding follow_verdict install_offer_timeout
follow_verdict-Inv tid size (decline reason, s) h = send_decline-Inv tid reason s h
follow_verdict-Inv tid size (accept name, s) (h, idle, fits) =
    let o : Offer = record { serial = s.next_serial; tid = tid; name = name; size = size } in
    let offered : State = record s {
      incoming_active = some (offer_pending o);
      next_serial = s.next_serial + 1;
    } in
    let k : Inv offered = record {
      parts = record {
        capped = h.parts.capped;
        current = (fits, omega arith);
        taken_up =
            later_offer s.incoming_active o s.accepting s.next_serial s.next_worker s.out refl
              h.parts.taken_up;
        unused = h.parts.unused;
      };
    } in
    record { parts = (emit-Inv _ offered (λ v. refl) k).parts }

pub dispatch_offer-Inv :
    (sanitize : String → Option String) (tid name : String) (size : ℕ) (s : State)
    → Inv s
    → Inv (dispatch_offer sanitize tid name size s)
unfolding dispatch_offer evaluate_pre_accept
dispatch_offer-Inv sanitize tid name size s h = follow_verdict-Inv tid size _ (
    Judged-if size (ltb max_file_size_bytes size) _ _ (λ _. h)
      (λ most.
        Judged-if size (size == 0) _ _ (λ _. h)
          (λ pos.
            evaluate_named-Judged tid size (sanitize name) s (some_bytes size pos) (within _ _ most)
              h)))
  where
    some_bytes : (size : ℕ) → (size == 0) ≡ false → 1 ≤ size
    some_bytes size e = ground arith
