-- ===== src/Client/MessageLog/History.antt =====
-- That the log loses nothing but the oldest messages, and counts them.
use unseen_fyi.Prelude.{
  ℕ, subst, zero, suc, ◌+◌, ◌-◌, ◌≤◌, ◌≡◌, refl, sym, ap, ◌∙◌, List, [], ◌∷◌, ◌++◌, arith, length,
  drop, length-drop, length-append,
}
use mathlib.Core.List.{append_assoc, append-nil}
use unseen_fyi.Client.MessageLog.{
  Message, Log, Op, chat_appended, system_appended, file_appended, frame_drawn, cleared, removed,
  max_dom_messages, show, flush_pending, schedule_flush, push, append_message,
  append_system_message, append_file_message, run_callback, animation_frame, apply, apply_all,
}

-- What an operation appends.
unfoldable pub said : Op → List Message
said (chat_appended m) = Message.chat m ∷ []
said (system_appended id event iso) =
    Message.system (record { id = id; event = event; received_at_iso = iso }) ∷ []
said (file_appended id tid direction iso) =
    Message.file_message
      (record { id = id; tid = tid; direction = direction; received_at_iso = iso })
    ∷ []
said _ = []

unfoldable pub said_all : List Op → List Message
said_all [] = []
said_all (op ∷ ops) = said op ++ said_all ops

-- No operation takes a message out.
abbrev pub Appends : List Op → Type 0
Appends [] = Unit {0}
Appends (cleared ∷ ops) = ⊥
Appends (removed event ∷ ops) = ⊥
Appends (_ ∷ ops) = Appends ops

-- What is shown and pending is all that was said but the pruned messages.
abbrev pub Shows : List Message → Log → Type 0
Shows past log =
    (log.pruned_count ≤ length past) × (drop log.pruned_count past ≡ log.messages ++ log.pending)

drop-append_le :
    (n : ℕ) (xs ys : List Message) → n ≤ length xs → drop n (xs ++ ys) ≡ drop n xs ++ ys
drop-append_le zero xs ys h = refl
drop-append_le (suc n) [] ys h = absurd (omega arith)
drop-append_le (suc n) (x ∷ xs) ys h = drop-append_le n xs ys (omega arith)

drop_nil : (n : ℕ) → drop n (let e : List Message = [] in e) ≡ []
drop_nil zero = refl
drop_nil (suc n) = refl

drop-drop : (m n : ℕ) (xs : List Message) → drop (n + m) xs ≡ drop m (drop n xs)
drop-drop m zero xs = ap (λ k. drop k xs) (omega arith)
drop-drop m (suc n) [] = drop_nil (suc n + m) ∙ sym (drop_nil m)
drop-drop m (suc n) (x ∷ xs) =
    ap (λ k. drop k (x ∷ xs)) (let e : suc n + m ≡ suc (n + m) = omega arith in e)
    ∙ drop-drop m n xs

push-Shows :
    (past : List Message) (log : Log) (m : Message)
    → Shows past log
    → Shows (past ++ m ∷ []) (push log m)
unfolding push schedule_flush
push-Shows past log m h =
    let kept : drop log.pruned_count (past ++ m ∷ []) ≡ log.messages ++ (log.pending ++ m ∷ []) =
      drop-append_le log.pruned_count past (m ∷ []) h.0
      ∙ ap (λ l. l ++ m ∷ []) h.1
      ∙ append_assoc log.messages log.pending (m ∷ []) in
    ground (arith, kept, length-append past (m ∷ []))

show-Shows :
    (past next : List Message) (log : Log)
    → log.pruned_count ≤ length past
    → drop log.pruned_count past ≡ next
    → Shows past (show log next)
unfolding show
show-Shows past next log h e =
    let over : ℕ = length next - max_dom_messages in
    let rest : length next ≡ length past - log.pruned_count =
      sym (ap length e) ∙ length-drop log.pruned_count past in
    let pruned : drop (log.pruned_count + over) past ≡ drop over next ++ [] =
      drop-drop over log.pruned_count past ∙ ap (drop over) e ∙ sym (append-nil (drop over next)) in
    let kept : drop log.pruned_count past ≡ next ++ [] = e ∙ sym (append-nil next) in
    ground (arith, pruned, kept, rest)

flush_pending-Shows :
    (past : List Message) (log : Log) → Shows past log → Shows past (flush_pending log)
unfolding flush_pending
flush_pending-Shows past log h =
    ground (arith, show-Shows past (log.messages ++ log.pending) log h.0 h.1)

run_callback-Shows :
    (past : List Message) (log : Log) (n : ℕ) → Shows past log → Shows past (run_callback log n)
unfolding run_callback
run_callback-Shows past log zero h = h
run_callback-Shows past log (suc n) h =
    flush_pending-Shows past
      (record {
        messages = log.messages;
        pruned_count = log.pruned_count;
        pending = log.pending;
        raf_scheduled = log.raf_scheduled;
        callbacks = n;
      })
      h

-- From a log that shows all of `past` but its pruned messages, any sequence of appended messages and
-- drawn frames gives a log in which the messages shown, followed by those that are pending, are all
-- that was ever said, in order, without the first `pruned_count` of them: none is lost, repeated or
-- moved, and `pruned_count` is the number of those that are gone.
pub apply_all-Shows :
    (past : List Message) (log : Log) (ops : List Op)
    → Appends ops
    → Shows past log
    → Shows (past ++ said_all ops) (apply_all log ops)
unfolding apply_all apply said said_all append_message append_system_message append_file_message
    animation_frame
apply_all-Shows past log [] a h = subst (λ l. Shows l log) (sym (append-nil past)) h
apply_all-Shows past log (chat_appended m ∷ ops) a h =
    let m' : Message = Message.chat m in
    subst (λ l. Shows l (apply_all (push log m') ops)) (append_assoc past (m' ∷ []) (said_all ops))
      (apply_all-Shows (past ++ m' ∷ []) (push log m') ops a (push-Shows past log m' h))
apply_all-Shows past log (system_appended id event iso ∷ ops) a h =
    let m' : Message = Message.system (record { id = id; event = event; received_at_iso = iso }) in
    subst (λ l. Shows l (apply_all (push log m') ops)) (append_assoc past (m' ∷ []) (said_all ops))
      (apply_all-Shows (past ++ m' ∷ []) (push log m') ops a (push-Shows past log m' h))
apply_all-Shows past log (file_appended id tid direction iso ∷ ops) a h =
    let m' : Message =
      Message.file_message
        (record { id = id; tid = tid; direction = direction; received_at_iso = iso }) in
    subst (λ l. Shows l (apply_all (push log m') ops)) (append_assoc past (m' ∷ []) (said_all ops))
      (apply_all-Shows (past ++ m' ∷ []) (push log m') ops a (push-Shows past log m' h))
apply_all-Shows past log (frame_drawn ∷ ops) a h =
    apply_all-Shows past (run_callback log log.callbacks) ops a
      (run_callback-Shows past log log.callbacks h)
apply_all-Shows past log (cleared ∷ ops) a h = absurd a
apply_all-Shows past log (removed event ∷ ops) a h = absurd a
