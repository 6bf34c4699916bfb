-- ===== src/Client/Examples.antt =====
-- The theorems about the client's parts at concrete inputs.
use unseen_fyi.Prelude.{
  ℕ, ◌+◌, ◌≤◌, ◌≡◌, ◌⊎◌, refl, none, some, List, [], ◌∷◌, ◌++◌, arith, true, false, replicate, ◌==◌,
}
use unseen_fyi.Client.MessageLog.{
  ChatMessage, incoming, Op, chat_appended, system_appended, frame_drawn, removed, session_started,
  empty_log, apply_all,
}
use unseen_fyi.Client.MessageLog.Bounds.{IsLog, apply_all-IsLog}
use unseen_fyi.Client.MessageLog.History.{Shows, said_all, apply_all-Shows}
use unseen_fyi.Client.Reconnect.{
  next_reconnect_delay_ms, reconnect_cumulative_cap_ms, next_reconnect_delay_ms_capped,
}
use unseen_fyi.Client.UnicodeSanitize.{
  sanitize_filename, cap_combining_runs, is_bidi_control, is_invisible, is_control,
  is_path_separator, is_reserved, starts_with_dot, byte_length,
}
use unseen_fyi.Client.UnicodeSanitize.Filename.{
  Safe, sanitize_filename-Safe, sanitize_filename-keeps,
}
use unseen_fyi.Client.UnicodeSanitize.Combining.{Capped, cap_combining_runs-Capped}
use unseen_fyi.Client.Connection.{
  SocketEvent, MessageData, listen_all, closes, ends, listen_all-closes_once,
}

abbrev example_message : ChatMessage
example_message = record {
  id = "a";
  direction = incoming;
  body = "hello";
  received_at_iso = "2026";
}

abbrev example_appends : List Op
example_appends =
    chat_appended example_message ∷ frame_drawn ∷ system_appended "b" session_started "2026" ∷ []

apply_all-IsLog_example :
    IsLog (apply_all empty_log (chat_appended example_message ∷ removed session_started ∷ []))
apply_all-IsLog_example =
    apply_all-IsLog empty_log (chat_appended example_message ∷ removed session_started ∷ [])
      (omega arith, λ h. absurd (h refl), λ h. absurd (cc h))

apply_all-Shows_example :
    Shows ([] ++ said_all example_appends) (apply_all empty_log example_appends)
apply_all-Shows_example = apply_all-Shows [] empty_log example_appends tt (omega arith, refl)

listen_all-closes_once_example :
    closes (
      listen_all false (
        SocketEvent.message MessageData.other
        ∷ SocketEvent.error
        ∷ SocketEvent.close true 1000 ""
        ∷ []))
    ≡ 1
unfolding ends
listen_all-closes_once_example = listen_all-closes_once (
    SocketEvent.message MessageData.other ∷ SocketEvent.error ∷ SocketEvent.close true 1000 "" ∷ [])

next_reconnect_delay_ms_capped_example :
    ((next_reconnect_delay_ms 9 299_000 ≡ none) × (reconnect_cumulative_cap_ms ≤ 299_000))
    ⊎ ((d : ℕ) × (next_reconnect_delay_ms 9 299_000 ≡ some d)
        × (1 ≤ d)
        × (d ≤ 60_000)
        × (299_000 + d ≤ reconnect_cumulative_cap_ms))
next_reconnect_delay_ms_capped_example = next_reconnect_delay_ms_capped 9 299_000

-- "../a" is kept as "_.._a".
example_traversal :
    sanitize_filename (λ t. t) (0x2E ∷ 0x2E ∷ 0x2F ∷ 0x61 ∷ [])
    ≡ some (0x5F ∷ 0x2E ∷ 0x2E ∷ 0x5F ∷ 0x61 ∷ [])
unfolding sanitize_filename
example_traversal = refl

sanitize_filename-Safe_example : Safe (0x5F ∷ 0x2E ∷ 0x2E ∷ 0x5F ∷ 0x61 ∷ [])
sanitize_filename-Safe_example =
    sanitize_filename-Safe (λ t. t) (0x2E ∷ 0x2E ∷ 0x2F ∷ 0x61 ∷ [])
      (0x5F ∷ 0x2E ∷ 0x2E ∷ 0x5F ∷ 0x61 ∷ []) example_traversal

example_plain-Safe : Safe (0x61 ∷ 0x2E ∷ 0x62 ∷ [])
unfolding is_bidi_control is_invisible is_control is_path_separator is_reserved starts_with_dot
    byte_length
example_plain-Safe = record {
  no_bidi = (refl, (refl, (refl, tt)));
  no_invisible = (refl, (refl, (refl, tt)));
  no_control = (refl, (refl, (refl, tt)));
  no_separator = (refl, (refl, (refl, tt)));
  not_reserved = refl;
  no_dot = refl;
  short = omega arith;
}

example_plain-short : byte_length (0x61 ∷ 0x2E ∷ 0x62 ∷ []) ≤ 255
unfolding byte_length
example_plain-short = omega arith

sanitize_filename-keeps_example :
    sanitize_filename (λ t. t) (0x61 ∷ 0x2E ∷ 0x62 ∷ []) ≡ some (0x61 ∷ 0x2E ∷ 0x62 ∷ [])
sanitize_filename-keeps_example =
    sanitize_filename-keeps (λ t. t) (0x61 ∷ 0x2E ∷ 0x62 ∷ []) refl example_plain-Safe
      example_plain-short

-- Invisible characters other than U+FEFF and the direction marks are kept: U+00AD, U+200B, U+2060.
example_invisible :
    sanitize_filename (λ t. t) (0x61 ∷ 0xAD ∷ 0x200B ∷ 0xFEFF ∷ 0x2060 ∷ [])
    ≡ some (0x61 ∷ 0xAD ∷ 0x200B ∷ 0x2060 ∷ [])
unfolding sanitize_filename
example_invisible = refl

-- A dot and 254 letters make 256 bytes.
example_over_cap :
    (byte_length (0x2E ∷ replicate 254 0x61) ≡ 255)
    × (sanitize_filename (λ t. t) (0x2E ∷ replicate 254 0x61)
        ≡ some (0x5F ∷ 0x2E ∷ replicate 254 0x61))
    × (byte_length (0x5F ∷ 0x2E ∷ replicate 254 0x61) ≡ 256)
unfolding sanitize_filename byte_length
example_over_cap = (refl, refl, refl)

cap_combining_runs-Capped_example :
    Capped (λ c. c == 0x301) 0 (cap_combining_runs (λ c. c == 0x301) (0x61 ∷ replicate 9 0x301))
    × (Capped (λ c. c == 0x301) 0 (0x61 ∷ replicate 9 0x301)
        → cap_combining_runs (λ c. c == 0x301) (0x61 ∷ replicate 9 0x301)
          ≡ 0x61 ∷ replicate 9 0x301)
    × (cap_combining_runs
          (λ c. c == 0x301)
          (cap_combining_runs (λ c. c == 0x301) (0x61 ∷ replicate 9 0x301))
        ≡ cap_combining_runs (λ c. c == 0x301) (0x61 ∷ replicate 9 0x301))
cap_combining_runs-Capped_example =
    cap_combining_runs-Capped (λ c. c == 0x301) (0x61 ∷ replicate 9 0x301)
