-- ===== src/Client/MessageLog/Bounds.antt =====
-- How many messages the log shows, and that what is pending will be shown.
use unseen_fyi.Prelude.{
  ℕ, ◌-◌, ap, zero, suc, ◌≤◌, ◌≡◌, ◌≢◌, refl, true, List, [], ◌∷◌, ◌++◌, arith, length, length-drop,
}
use unseen_fyi.Client.MessageLog.{
  SystemEventKind, Message, Log, Op, chat_appended, system_appended, file_appended, frame_drawn,
  cleared, removed, max_dom_messages, show, flush_pending, schedule_flush, push, append_message,
  append_system_message, append_file_message, clear_messages, without, remove_system_message,
  run_callback, animation_frame, apply, apply_all,
}

-- At most 500 messages are shown; while anything is pending, a call of flushPending is due.
abbrev pub IsLog : Log → Type 0
IsLog log =
    (length log.messages ≤ max_dom_messages)
    × (log.pending ≢ [] → log.raf_scheduled ≡ true)
    × (log.raf_scheduled ≡ true → 1 ≤ log.callbacks)

length-without :
    (event : SystemEventKind) (ms : List Message) → length (without event ms) ≤ length ms
length-without event [] = omega arith
length-without event (m ∷ ms) = ground (arith, length-without event ms)

push-IsLog : (log : Log) (m : Message) → IsLog log → IsLog (push log m)
unfolding push schedule_flush
push-IsLog log m h = ground arith

nil_of_length : (ms : List Message) → length ms ≡ 0 → ms ≡ []
nil_of_length [] h = refl
nil_of_length (m ∷ ms) h = absurd (omega arith)

flush_pending-IsLog :
    (log : Log) → length log.messages ≤ max_dom_messages → IsLog (flush_pending log)
unfolding flush_pending show
flush_pending-IsLog log h =
    let none_left = nil_of_length log.pending in
    ground (
      arith,
      none_left,
      length-drop (length (log.messages ++ log.pending) - 500) (log.messages ++ log.pending),
    )

run_callback-IsLog : (log : Log) (n : ℕ) → IsLog log → IsLog (run_callback log n)
unfolding run_callback
run_callback-IsLog log zero h = h
run_callback-IsLog log (suc n) h =
    flush_pending-IsLog
      (record {
        messages = log.messages;
        pruned_count = log.pruned_count;
        pending = log.pending;
        raf_scheduled = log.raf_scheduled;
        callbacks = n;
      })
      h.0

apply-IsLog : (log : Log) (op : Op) → IsLog log → IsLog (apply log op)
unfolding apply append_message append_system_message append_file_message animation_frame
    clear_messages remove_system_message
apply-IsLog log (chat_appended m) h = push-IsLog log _ h
apply-IsLog log (system_appended id event iso) h = push-IsLog log _ h
apply-IsLog log (file_appended id tid direction iso) h = push-IsLog log _ h
apply-IsLog log frame_drawn h = run_callback-IsLog log log.callbacks h
apply-IsLog log cleared h = ground arith
apply-IsLog log (removed event) h = (
  ground (arith, length-without event log.messages),
  λ left. h.1 (λ nil. left (ap (without event) nil)),
  h.2,
)

-- After any sequence of appended messages, drawn frames, clears and removals, on a log of which this
-- holds already: at most 500 messages are shown, while anything is pending a flush is scheduled, and
-- when one is scheduled the browser still has a call of flushPending to make.
pub apply_all-IsLog : (log : Log) (ops : List Op) → IsLog log → IsLog (apply_all log ops)
unfolding apply_all
apply_all-IsLog log [] h = h
apply_all-IsLog log (op ∷ ops) h = apply_all-IsLog (apply log op) ops (apply-IsLog log op h)
