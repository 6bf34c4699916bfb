-- ===== src/Relay/Send.antt =====
-- server/src/room/send.ts
use unseen_fyi.Prelude.{ℕ, zero, suc, Bool, true, false, [], ◌∷◌, ◌++◌}
use unseen_fyi.Wire.Bytes.{Bytes}
use unseen_fyi.Wire.Codes.{ErrorCode, message_too_large, internal}
use unseen_fyi.Wire.Encode.{encode_error}
use unseen_fyi.Room.Registry.{Socket}
use unseen_fyi.Prelude.Int.{ℤ, pos, negsuc}
use unseen_fyi.Relay.State.{
  Server, Deps, send, close, CloseReason, for_error, SendStatus, sent, queued, dropped,
}

abbrev pub ws_close_policy_violation : ℕ
ws_close_policy_violation = 1008

abbrev pub ws_close_message_too_large : ℕ
ws_close_message_too_large = 1009

abbrev pub ws_close_internal : ℕ
ws_close_internal = 1011

unfoldable pub classify : ℤ → SendStatus
classify (pos zero) = dropped
classify (pos (suc n)) = sent
classify (negsuc n) = queued

abbrev pub is_dropped : SendStatus → Bool
is_dropped dropped = true
is_dropped _ = false

unfoldable pub safe_send : Deps → Socket → Bytes → Server → Server × SendStatus
safe_send deps ws bytes s =
    let status = classify (deps.runtime.returned s.out ws bytes) in
    (record s { out = s.out ++ send ws bytes status ∷ [] }, status)

-- ws.close(code, reason)
unfoldable pub close_socket : Socket → ℕ → CloseReason → Server → Server
close_socket ws code reason s = record s { out = s.out ++ close ws code reason ∷ [] }

unfoldable pub close_code_for_error : ErrorCode → ℕ
close_code_for_error message_too_large = ws_close_message_too_large
close_code_for_error internal = ws_close_internal
close_code_for_error _ = ws_close_policy_violation

unfoldable pub send_error_and_close : Deps → Socket → ErrorCode → Server → Server
send_error_and_close deps ws code s =
    close_socket ws (close_code_for_error code) (for_error code)
      (safe_send deps ws (encode_error code) s).0
