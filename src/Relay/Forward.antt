-- ===== src/Relay/Forward.antt =====
-- `handleForward`: a HANDSHAKE or RELAY frame goes to the other socket of the room as it came.
use unseen_fyi.Prelude.{
  ℕ, ◌+◌, Bool, ◌&&◌, not, Option, none, some, length, leb, ltb, ◌==◌, if◌then◌else◌,
}
use unseen_fyi.Prelude.Dict.{get, delete}
use unseen_fyi.Prelude.Eq.{list_eq_instance}
use unseen_fyi.Wire.Bytes.{Bytes}
use unseen_fyi.Wire.Codes.{
  room_not_found, rate_limited, message_too_large, invalid_payload, bad_state, internal,
  msg_handshake, msg_relay,
}
use unseen_fyi.Wire.Frames.{max_wire_bytes, handshake_frame_length}
use unseen_fyi.Limit.Bucket.{consume_relay_token}
use unseen_fyi.Room.Registry.{Socket, RoomId, Room, is_half_open, get_peer}
use unseen_fyi.Relay.State.{Server, Deps, peer_buffer_overflow, is_paired, set_data, inc_relay}
use unseen_fyi.Relay.Send.{safe_send, close_socket, send_error_and_close, is_dropped}

-- shared/src/limits.ts
abbrev pub peer_buffer_cap_bytes : ℕ
peer_buffer_cap_bytes = 8_388_608

abbrev pub max_handshake_forwards : ℕ
max_handshake_forwards = 1

-- consumeRelayToken(ws.data.relayBucket, …)
unfoldable pub charge : Deps → Socket → Server → Server × Bool
charge deps ws s =
    let (bucket, allowed) =
      consume_relay_token (s.conns ws).relay_bucket deps.config.relay_bucket deps.now in
    (set_data s ws (record (s.conns ws) { relay_bucket = bucket }), allowed)

unfoldable pub deliver : Deps → Socket → Bytes → ℕ → Room → Socket → Server → Server
deliver deps ws buf type room peer s =
    if ltb peer_buffer_cap_bytes (deps.runtime.buffered s.out peer)
    then (let closed =
          close_socket peer 1011 peer_buffer_overflow
            (close_socket ws 1011 peer_buffer_overflow s) in
        record closed { registry = delete closed.registry room.room_id })
    else let (s', status) = safe_send deps peer buf s in
      if is_dropped status
      then (let closed =
            send_error_and_close deps peer internal (send_error_and_close deps ws internal s') in
          record closed { registry = delete closed.registry room.room_id })
      else if type == msg_relay
      then inc_relay s'
      else s'

-- A socket forwards one handshake.
unfoldable pub count_handshake : Deps → Socket → Bytes → ℕ → Room → Socket → Server → Server
count_handshake deps ws buf type room peer s =
    if not (type == msg_handshake)
    then deliver deps ws buf type room peer s
    else if leb max_handshake_forwards (s.conns ws).handshake_forwards
    then send_error_and_close deps ws bad_state s
    else deliver deps ws buf type room peer (
        set_data s ws
          (record (s.conns ws) { handshake_forwards = (s.conns ws).handshake_forwards + 1 }))

-- No socket to forward to: in the grace period the frame is lost, and a handshake is charged too.
unfoldable pub lose_frame : Deps → Socket → ℕ → Room → Server → Server
lose_frame deps ws type room s =
    if not (is_half_open room.state)
    then send_error_and_close deps ws internal s
    else if not (type == msg_handshake)
    then s
    else let (s', allowed) = charge deps ws s in
      if allowed then s' else send_error_and_close deps ws rate_limited s'

unfoldable pub forward_to : Deps → Socket → Bytes → ℕ → Room → Option Socket → Server → Server
forward_to deps ws buf type room none s = lose_frame deps ws type room s
forward_to deps ws buf type room (some peer) s = count_handshake deps ws buf type room peer s

unfoldable pub forward_in : Deps → Socket → Bytes → ℕ → Option Room → Server → Server
forward_in deps ws buf type none s = send_error_and_close deps ws room_not_found s
forward_in deps ws buf type (some room) s = forward_to deps ws buf type room (get_peer room ws) s

-- roomId === undefined ? undefined : registry.get(roomId)
unfoldable pub find_room : Server → Option RoomId → Option Room
find_room s none = none
find_room s (some id) = get s.registry id

unfoldable pub route : Deps → Socket → Bytes → ℕ → Server → Server
route deps ws buf type s = forward_in deps ws buf type (find_room s (s.conns ws).room_id) s

unfoldable pub handle_forward : Deps → Socket → Bytes → ℕ → Server → Server
handle_forward deps ws buf type s =
    if not (is_paired (s.conns ws).state)
    then send_error_and_close deps ws bad_state s
    else if ltb max_wire_bytes (length buf)
    then send_error_and_close deps ws message_too_large s
    else if type == msg_handshake && not (length buf == handshake_frame_length)
    then send_error_and_close deps ws invalid_payload s
    else if not (type == msg_relay)
    then route deps ws buf type s
    else let (s', allowed) = charge deps ws s in
      if allowed then route deps ws buf type s' else send_error_and_close deps ws rate_limited s'
