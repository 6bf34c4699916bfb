-- ===== src/Transfer/Receiver/Invariant.antt =====
-- What holds of the receiver between two events.
pub mod Ends
pub mod Offers
pub mod Accept
pub mod Holding
pub mod Arrivals
pub mod Written
pub mod Taken
pub mod Arrived
pub mod Runs
use mathlib.Core.List.{append_assoc, append-nil}
use unseen_fyi.Prelude.{
  ℕ, zero, suc, ◌+◌, ◌-◌, ◌*◌, ◌≤◌, ◌<◌, ◌≡◌, ◌≢◌, refl, sym, ap, ◌∙◌, subst, Bool, true, false,
  Option, none, some, List, [], ◌∷◌, ◌++◌, arith, length, min, is_some, ◌==◌, if◌then◌else◌,
}
use unseen_fyi.Transfer.Chunks.{chunk_data_max_bytes, compute_total_chunks}
use unseen_fyi.Transfer.Receiver.{
  Worker, Chunk, Offer, Receiving, IncomingState, offer_pending, receiving, WorkerIn, chunk, Effect,
  post, Accepting, for_ready, for_sent, State, emit, drop_incoming, reset_transfer_locals,
  max_file_size_bytes, session_receive_cap_bytes, recv_pending_hard_cap_chunks,
}

-- The numbers of the chunks that were posted to a worker, the first one first.
abbrev pub number_for : Worker → Effect → List ℕ
number_for w (post v (chunk n b)) = if v == w then n ∷ [] else []
number_for w _ = []

abbrev pub posted : Worker → List Effect → List ℕ
posted w [] = []
posted w (e ∷ es) = number_for w e ++ posted w es

-- 0, 1, … up to n - 1.
abbrev pub upto : ℕ → List ℕ
upto zero = []
upto (suc n) = upto n ++ n ∷ []

-- The chunks are numbered from `n` on, with no gap.
abbrev pub Numbered : ℕ → List Chunk → Type 0
Numbered n [] = Unit {0}
Numbered n (c ∷ cs) = (c.seq ≡ n) × Numbered (suc n) cs

abbrev pub SizeOk : ℕ → ℕ → Type 0
SizeOk session size =
    (1 ≤ size) × (size ≤ max_file_size_bytes) × (session + size ≤ session_receive_cap_bytes)

-- The transfer that comes in, with what its worker was given.
pub record ReceivingOk (r : Receiving) (out : List Effect) : Type 0 where
  pub sized : r.expected_size ≡ r.size
  pub counted : r.network_received_bytes ≡ min (r.next_expected_seq * chunk_data_max_bytes) r.size
  pub in_range : r.next_expected_seq ≤ compute_total_chunks r.size
  pub short : length r.pending_chunk_queue ≤ recv_pending_hard_cap_chunks
  pub queued : length r.pending_chunk_queue ≤ r.next_expected_seq
  pub no_credit : 0 < length r.pending_chunk_queue → r.receive_credit ≡ 0
  pub numbered : Numbered (r.next_expected_seq - length r.pending_chunk_queue) r.pending_chunk_queue
  pub in_order : posted r.worker out ≡ upto (r.next_expected_seq - length r.pending_chunk_queue)
  pub complete : is_some r.sender_sha256 ≡ true → r.network_received_bytes ≡ r.size
  pub final : r.finalize_requested ≡ true → is_some r.sender_sha256 ≡ true

abbrev pub CurrentOk : Option IncomingState → ℕ → ℕ → ℕ → List Effect → Type 0
CurrentOk none session serial worker out = Unit {0}
CurrentOk (some (offer_pending o)) session serial worker out =
    SizeOk session o.size × (o.serial < serial)
CurrentOk (some (receiving r)) session serial worker out =
    SizeOk session r.size × (r.worker < worker) × ReceivingOk r out

-- The offer that is being accepted is the pending one, or one that has gone; its worker is new.
abbrev pub Agrees : Option IncomingState → Offer → Type 0
Agrees none o = Unit {0}
Agrees (some (offer_pending current)) o = current.serial ≡ o.serial → current ≡ o
Agrees (some (receiving r)) o = ⊥

abbrev pub TakenUp : Option IncomingState → Offer → Worker → ℕ → ℕ → List Effect → Type 0
TakenUp incoming o w serial worker out =
    Agrees incoming o × (o.serial < serial) × (w < worker) × (posted w out ≡ [])

abbrev pub AcceptOk : Option IncomingState → Option Accepting → ℕ → ℕ → List Effect → Type 0
AcceptOk incoming none serial worker out = Unit {0}
AcceptOk incoming (some (for_ready o w)) serial worker out = TakenUp incoming o w serial worker out
AcceptOk incoming (some (for_sent o w)) serial worker out = TakenUp incoming o w serial worker out

pub record Parts (incoming : Option IncomingState) (session : ℕ) (accepting : Option Accepting)
    (serial worker : ℕ) (out : List Effect) : Type 0 where
  pub capped : session ≤ session_receive_cap_bytes
  pub current : CurrentOk incoming session serial worker out
  pub taken_up : AcceptOk incoming accepting serial worker out
  pub unused : (w : Worker) → worker ≤ w → posted w out ≡ []

pub record Inv (s : State) : Type 0 where
  pub parts :
      Parts s.incoming_active s.session_received_bytes s.accepting s.next_serial s.next_worker s.out

pub posted-append :
    (w : Worker) (es fs : List Effect) → posted w (es ++ fs) ≡ posted w es ++ posted w fs
posted-append w [] fs = refl
posted-append w (e ∷ es) fs =
    ap (λ l. number_for w e ++ l) (posted-append w es fs)
    ∙ sym (append_assoc (number_for w e) (posted w es) (posted w fs))

-- An effect that is no chunk for a worker.
abbrev pub IsPlain : Effect → Type 0
IsPlain e = (w : Worker) → number_for w e ≡ []

pub posted-plain :
    (w : Worker) (out : List Effect) (e : Effect)
    → IsPlain e
    → posted w (out ++ e ∷ []) ≡ posted w out
posted-plain w out e h =
    posted-append w out (e ∷ [])
    ∙ ap (λ l. posted w out ++ (l ++ [])) (h w)
    ∙ append-nil (posted w out)

pub drop_incoming-Inv : (s : State) → Inv s → Inv (drop_incoming s)
unfolding drop_incoming reset_transfer_locals
drop_incoming-Inv s h = record {
  parts = record {
    capped = h.parts.capped;
    current = tt;
    taken_up = dropped s.accepting h.parts.taken_up;
    unused = h.parts.unused;
  };
}
  where
    dropped :
        (a : Option Accepting)
        → AcceptOk s.incoming_active a s.next_serial s.next_worker s.out
        → AcceptOk none a s.next_serial s.next_worker s.out
    dropped none k = tt
    dropped (some (for_ready o w)) (k, l, m, e) = (tt, l, m, e)
    dropped (some (for_sent o w)) (k, l, m, e) = (tt, l, m, e)

pub ReceivingOk-out :
    (out out' : List Effect)
    → ((w : Worker) → posted w out' ≡ posted w out)
    → (r : Receiving) → ReceivingOk r out
    → ReceivingOk r out'
ReceivingOk-out out out' same r h = record {
  sized = h.sized;
  counted = h.counted;
  in_range = h.in_range;
  short = h.short;
  queued = h.queued;
  no_credit = h.no_credit;
  numbered = h.numbered;
  in_order = same r.worker ∙ h.in_order;
  complete = h.complete;
  final = h.final;
}

module _ (out out' : List Effect) (session serial worker : ℕ)
    (same : (w : Worker) → posted w out' ≡ posted w out) where
  CurrentOk-out :
      (i : Option IncomingState)
      → CurrentOk i session serial worker out
      → CurrentOk i session serial worker out'
  CurrentOk-out none h = tt
  CurrentOk-out (some (offer_pending o)) h = h
  CurrentOk-out (some (receiving r)) (k, lt, h) = (k, lt, ReceivingOk-out out out' same r h)

  AcceptOk-out :
      (i : Option IncomingState) (a : Option Accepting)
      → AcceptOk i a serial worker out
      → AcceptOk i a serial worker out'
  AcceptOk-out i none h = tt
  AcceptOk-out i (some (for_ready o w)) (k, l, m, h) = (k, l, m, same w ∙ h)
  AcceptOk-out i (some (for_sent o w)) (k, l, m, h) = (k, l, m, same w ∙ h)

  pub Parts-out :
      (i : Option IncomingState) (a : Option Accepting)
      → Parts i session a serial worker out
      → Parts i session a serial worker out'
  Parts-out i a h = record {
    capped = h.capped;
    current = CurrentOk-out i h.current;
    taken_up = AcceptOk-out i a h.taken_up;
    unused = λ w k. same w ∙ h.unused w k;
  }

pub emit-Inv : (e : Effect) (s : State) → IsPlain e → Inv s → Inv (emit e s)
unfolding emit
emit-Inv e s p h = record {
  parts =
      Parts-out s.out (s.out ++ e ∷ []) s.session_received_bytes s.next_serial s.next_worker
        (λ w. posted-plain w s.out e p) s.incoming_active s.accepting h.parts;
}
