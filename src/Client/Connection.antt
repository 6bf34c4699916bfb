-- ===== src/Client/Connection.antt =====
-- client/src/transport/ws.ts: the three listeners of openConnection's socket.
use unseen_fyi.Prelude.{
  ℕ, suc, ◌≡◌, refl, ap, ◌∙◌, Bool, true, false, Option, none, some, List, [], ◌∷◌, ◌++◌, arith,
  String, if◌then◌else◌,
}
use unseen_fyi.Wire.Bytes.{Bytes}
use unseen_fyi.Wire.Frames.{ServerFrame}
use unseen_fyi.Wire.Decode.{decode_server_frame}

pub data CloseKind : Type 0 where
  clean abnormal failed : CloseKind

pub data ProtocolError : Type 0 where
  invalid_wire_type_text invalid_wire_type_not_arraybuffer invalid_frame : ProtocolError

-- `event.data`: a string, an ArrayBuffer, or anything else.
pub data MessageData : Type 0 where
  text : String → MessageData
  array_buffer : Bytes → MessageData
  other : MessageData

-- A call of one of the handlers.
pub data Call : Type 0 where
  on_frame : ServerFrame → Call
  on_close : CloseKind → ℕ → String → Call
  on_protocol_error : ProtocolError → Call

abbrev pub missing_code : ℕ
missing_code = 0

abbrev pub frame_call : Option ServerFrame → Call
frame_call none = on_protocol_error invalid_frame
frame_call (some frame) = on_frame frame

unfoldable pub handle_incoming : MessageData → Call
handle_incoming (text s) = on_protocol_error invalid_wire_type_text
handle_incoming other = on_protocol_error invalid_wire_type_not_arraybuffer
handle_incoming (array_buffer buf) = frame_call (decode_server_frame buf)

-- The flag `closed` after the call, and the calls of the handlers.
unfoldable pub close_once : Bool → CloseKind → ℕ → String → Bool × List Call
close_once true kind code reason = (true, [])
close_once false kind code reason = (true, on_close kind code reason ∷ [])

pub data SocketEvent : Type 0 where
  message : MessageData → SocketEvent
  close : Bool → ℕ → String → SocketEvent
  error : SocketEvent

unfoldable pub listen : Bool → SocketEvent → Bool × List Call
unfolding handle_incoming close_once
listen closed (message d) = (closed, handle_incoming d ∷ [])
listen closed (close was_clean code reason) =
    close_once closed (if was_clean then clean else abnormal) code reason
listen closed error = close_once closed failed missing_code ""

unfoldable pub listen_all : Bool → List SocketEvent → List Call
unfolding listen
listen_all closed [] = []
listen_all closed (e ∷ events) =
    let (closed', calls) = listen closed e in calls ++ listen_all closed' events

-- How often onClose is called.
unfoldable pub closes : List Call → ℕ
closes [] = 0
closes (on_close kind code reason ∷ calls) = suc (closes calls)
closes (_ ∷ calls) = closes calls

-- Whether the socket closed or failed.
unfoldable pub ends : List SocketEvent → Bool
ends [] = false
ends (message d ∷ events) = ends events
ends (_ ∷ events) = true

incoming_no_close :
    (d : MessageData) (calls : List Call) → closes (handle_incoming d ∷ calls) ≡ closes calls
unfolding closes handle_incoming
incoming_no_close d calls = ground arith

listen_closed : (events : List SocketEvent) → closes (listen_all true events) ≡ 0
unfolding listen_all listen close_once closes
listen_closed [] = refl
listen_closed (message d ∷ events) =
    omega (arith, incoming_no_close d (listen_all true events), listen_closed events)
listen_closed (close w code reason ∷ events) = listen_closed events
listen_closed (error ∷ events) = listen_closed events

-- Whatever a socket does, in whatever order its message, error and close events come: onClose is
-- called exactly once if the socket closes or fails, and not at all if it does not.
pub listen_all-closes_once :
    (events : List SocketEvent) → closes (listen_all false events) ≡ (if ends events then 1 else 0)
unfolding listen_all listen close_once closes ends
listen_all-closes_once [] = refl
listen_all-closes_once (message d ∷ events) =
    incoming_no_close d (listen_all false events) ∙ listen_all-closes_once events
listen_all-closes_once (close w code reason ∷ events) = ap suc (listen_closed events)
listen_all-closes_once (error ∷ events) = ap suc (listen_closed events)
