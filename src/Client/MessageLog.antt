-- ===== src/Client/MessageLog.antt =====
-- client/src/state/message-log.ts. The module's variables are a record; `callbacks` counts the calls
-- of flushPending that requestAnimationFrame still has to make. The id that crypto.randomUUID gives
-- is an argument, and of a signal only its value is kept.
pub mod Bounds
pub mod History
use unseen_fyi.Prelude.{
  ℕ, zero, suc, ◌+◌, ◌-◌, ◌≤◌, ◌≡◌, ◌≢◌, refl, sym, ap, ◌∙◌, Bool, true, false, not, List, [], ◌∷◌,
  ◌++◌, arith, length, drop, ltb, ◌==◌, String, if◌then◌else◌, length-drop, length-append,
}
use mathlib.Core.List.{append_assoc}

pub data SystemEventKind : Type 0 where
  waiting_for_peer session_started peer_disconnected peer_reconnected session_ended
        duplicate_tab_blocked mode_downgraded_to_ram mode_upgraded_locally peer_mode_upgraded
        mode_upgrade_invited mode_upgrade_dismissed_by_user mode_upgrade_failed session_hardened
        file_transfer_cancelled file_transfer_failed file_peer_unavailable
        file_session_cap_reached :
      SystemEventKind

abbrev event_number : SystemEventKind → ℕ
event_number waiting_for_peer = 0
event_number session_started = 1
event_number peer_disconnected = 2
event_number peer_reconnected = 3
event_number session_ended = 4
event_number duplicate_tab_blocked = 5
event_number mode_downgraded_to_ram = 6
event_number mode_upgraded_locally = 7
event_number peer_mode_upgraded = 8
event_number mode_upgrade_invited = 9
event_number mode_upgrade_dismissed_by_user = 10
event_number mode_upgrade_failed = 11
event_number session_hardened = 12
event_number file_transfer_cancelled = 13
event_number file_transfer_failed = 14
event_number file_peer_unavailable = 15
event_number file_session_cap_reached = 16

pub data Direction : Type 0 where
  incoming outgoing : Direction

pub record ChatMessage : Type 0 where
  pub id : String
  pub direction : Direction
  pub body : String
  pub received_at_iso : String

pub record SystemMessage : Type 0 where
  pub id : String
  pub event : SystemEventKind
  pub received_at_iso : String

pub record FileMessage : Type 0 where
  pub id : String
  pub tid : String
  pub direction : Direction
  pub received_at_iso : String

pub data Message : Type 0 where
  chat : ChatMessage → Message
  system : SystemMessage → Message
  file_message : FileMessage → Message

abbrev pub max_dom_messages : ℕ
max_dom_messages = 500

pub record Log : Type 0 where
  pub messages : List Message
  pub pruned_count : ℕ
  pub pending : List Message
  pub raf_scheduled : Bool
  pub callbacks : ℕ

abbrev pub empty_log : Log
empty_log = record {
  messages = [];
  pruned_count = 0;
  pending = [];
  raf_scheduled = false;
  callbacks = 0;
}

-- flushPending's body once something is pending.
unfoldable pub show : Log → List Message → Log
show log next =
    if ltb max_dom_messages (length next)
    then record {
      messages = drop (length next - max_dom_messages) next;
      pruned_count = log.pruned_count + (length next - max_dom_messages);
      pending = [];
      raf_scheduled = false;
      callbacks = log.callbacks;
    }
    else record {
      messages = next;
      pruned_count = log.pruned_count;
      pending = [];
      raf_scheduled = false;
      callbacks = log.callbacks;
    }

unfoldable pub flush_pending : Log → Log
unfolding show
flush_pending log =
    if length log.pending == 0
    then record {
      messages = log.messages;
      pruned_count = log.pruned_count;
      pending = log.pending;
      raf_scheduled = false;
      callbacks = log.callbacks;
    }
    else show log (log.messages ++ log.pending)

unfoldable pub schedule_flush : Log → Log
schedule_flush log = if log.raf_scheduled then log else record {
  messages = log.messages;
  pruned_count = log.pruned_count;
  pending = log.pending;
  raf_scheduled = true;
  callbacks = log.callbacks + 1;
}

-- pending.push(message); scheduleFlush()
unfoldable pub push : Log → Message → Log
unfolding schedule_flush
push log message = schedule_flush (record {
  messages = log.messages;
  pruned_count = log.pruned_count;
  pending = log.pending ++ message ∷ [];
  raf_scheduled = log.raf_scheduled;
  callbacks = log.callbacks;
})

unfoldable pub append_message : Log → ChatMessage → Log
append_message log message = push log (Message.chat message)

unfoldable pub append_system_message : Log → String → SystemEventKind → String → Log
append_system_message log id event received_at_iso =
    push log (Message.system (record { id = id; event = event; received_at_iso = received_at_iso }))

unfoldable pub append_file_message : Log → String → String → Direction → String → Log
append_file_message log id tid direction received_at_iso = push log (
    Message.file_message
      (record { id = id; tid = tid; direction = direction; received_at_iso = received_at_iso }))

-- A call that requestAnimationFrame still has to make is not taken back.
unfoldable pub clear_messages : Log → Log
clear_messages log = record {
  messages = [];
  pruned_count = 0;
  pending = [];
  raf_scheduled = false;
  callbacks = log.callbacks;
}

abbrev pub is_event : SystemEventKind → Message → Bool
is_event event (Message.system m) = event_number m.event == event_number event
is_event event _ = false

abbrev pub without : SystemEventKind → List Message → List Message
without event [] = []
without event (m ∷ ms) = let rest = without event ms in if is_event event m then rest else m ∷ rest

unfoldable pub remove_system_message : Log → SystemEventKind → Log
remove_system_message log event = record {
  messages =
      (let filtered = without event log.messages in
        if not (length filtered == length log.messages) then filtered else log.messages);
  pruned_count = log.pruned_count;
  pending = without event log.pending;
  raf_scheduled = log.raf_scheduled;
  callbacks = log.callbacks;
}

-- The browser makes a call of flushPending, if one is due.
run_callback : Log → ℕ → Log
unfolding flush_pending
run_callback log zero = log
run_callback log (suc n) = flush_pending (record {
  messages = log.messages;
  pruned_count = log.pruned_count;
  pending = log.pending;
  raf_scheduled = log.raf_scheduled;
  callbacks = n;
})

unfoldable pub animation_frame : Log → Log
unfolding run_callback
animation_frame log = run_callback log log.callbacks

pub data Op : Type 0 where
  chat_appended : ChatMessage → Op
  system_appended : String → SystemEventKind → String → Op
  file_appended : String → String → Direction → String → Op
  frame_drawn cleared : Op
  removed : SystemEventKind → Op

unfoldable pub apply : Log → Op → Log
unfolding append_message append_system_message append_file_message animation_frame clear_messages
    remove_system_message
apply log (chat_appended m) = append_message log m
apply log (system_appended id event iso) = append_system_message log id event iso
apply log (file_appended id tid direction iso) = append_file_message log id tid direction iso
apply log frame_drawn = animation_frame log
apply log cleared = clear_messages log
apply log (removed event) = remove_system_message log event

unfoldable pub apply_all : Log → List Op → Log
unfolding apply
apply_all log [] = log
apply_all log (op ∷ ops) = apply_all (apply log op) ops
