-- ===== src/Relay/Hello.antt =====
-- The HELLO of a socket: `handleCreate`, `handleJoinOrResume` and `handleHello`. Each function below
-- goes on where an early return of the source did not leave.
use unseen_fyi.Prelude.{
  ℕ, ◌+◌, ◌-◌, ◌/◌, ◌%◌, Bool, true, false, ◌&&◌, not, Option, none, some, List, [], ◌∷◌, ltb, ◌==◌,
  if◌then◌else◌, is_some, or_else, update,
}
use unseen_fyi.Prelude.Dict.{get, delete}
use unseen_fyi.Prelude.Eq.{list_eq_instance}
use unseen_fyi.Wire.Bytes.{Bytes}
use unseen_fyi.Wire.Codes.{
  Role, initiator, HelloIntent, create, resume, unsupported_version, room_full, room_not_found,
  room_already_exists, rate_limited, bad_state, protocol_version,
}
use unseen_fyi.Wire.Frames.{Hello}
use unseen_fyi.Wire.Encode.{encode_ack, encode_peer_joined}
use unseen_fyi.Limit.IpLimiter.{IpAction, new_room, join_room, check}
use unseen_fyi.Room.Registry.{
  Socket, RoomId, Room, is_half_open, has_free_slot, add_peer, put_back, remove,
}
use unseen_fyi.Room.Registry
use unseen_fyi.Relay.State.{
  Server, Deps, waiting_for_peer, paired, ack_dropped, peer_joined_dropped, is_pending, set_data,
  inc_rate_limit_reject,
}
use unseen_fyi.Relay.Send.{safe_send, close_socket, send_error_and_close, is_dropped}

-- `toHex` of shared/src/crypto/encoding.ts: two lower-case digits for each byte.
unfoldable pub hex_digit : ℕ → ℕ
hex_digit d = if ltb d 10 then d + b'0' else d - 10 + b'a'

unfoldable pub hex_encode : Bytes → List ℕ
hex_encode [] = []
hex_encode (b ∷ bs) = hex_digit (b / 16 % 16) ∷ hex_digit (b % 16) ∷ hex_encode bs

-- clearTimeout(ws.data.helloTimer), and the field emptied.
unfoldable pub disarm : Socket → Server → Server
disarm ws s = record s {
  conns = update s.conns ws (record (s.conns ws) { hello_timer = false });
  timers = update s.timers ws false;
}

unfoldable pub clear_hello_timer : Socket → Server → Server
clear_hello_timer ws s = if (s.conns ws).hello_timer then disarm ws s else s

-- The test of an action's limit. A refusal is counted.
unfoldable pub allow : Deps → Socket → IpAction → Server → Server × Bool
allow deps ws action s =
    let ip = (s.conns ws).ip in
    let (limiter', allowed) =
      check deps.runtime.is_ip deps.config.ip_limits s.limiter ip action deps.now in
    let s' = record s { limiter = limiter' } in
    (if allowed then s' else inc_rate_limit_reject s', allowed)

unfoldable pub create_room : Deps → Socket → RoomId → Server → Server
create_room deps ws id s =
    let s1 = record s {
      registry = Registry.create s.registry id ws deps.now;
      conns = update s.conns ws (record (s.conns ws) {
        room_id = some id;
        state = waiting_for_peer;
        role = some initiator;
      });
    } in
    let (s2, status) = safe_send deps ws (encode_ack initiator) s1 in
    if is_dropped status then record s2 { registry = delete s2.registry id } else s2

unfoldable pub handle_create : Deps → Socket → RoomId → Server → Server
handle_create deps ws id s =
    let (s1, allowed) = allow deps ws new_room s in
    if not allowed
    then send_error_and_close deps ws rate_limited s1
    else if is_some (get s1.registry id)
    then send_error_and_close deps ws room_already_exists s1
    else create_room deps ws id s1

-- remaining.data.state = 'PAIRED'
unfoldable pub pair_remaining : Option Socket → Server → Server
pair_remaining none s = s
pair_remaining (some r) s = set_data s r (record (s.conns r) { state = paired })

-- Both sockets closed for one reason, if the other is there and is another one.
unfoldable pub close_both : Socket → Option Socket → Server → Server
close_both ws none s = s
close_both ws (some r) s =
    if r == ws then s else close_socket r 1011 ack_dropped (close_socket ws 1011 ack_dropped s)

-- The ACK of a join was dropped: the room goes.
unfoldable pub abandon_join : Deps → Socket → Room → Option Socket → Server → Server
abandon_join deps ws room remaining s =
    let (rooms, room', result) = remove s.registry room ws deps.now in
    let s' = close_both ws remaining (record s { registry = rooms }) in
    record s' { registry = delete s'.registry room'.room_id }

-- The other socket is told; if that is dropped the room goes too.
unfoldable pub announce_join : Deps → Socket → Room → Option Socket → Server → Server
announce_join deps ws room none s = s
announce_join deps ws room (some r) s =
    if r == ws
    then s
    else let (s', status) = safe_send deps r encode_peer_joined s in
      if not (is_dropped status)
      then s'
      else let closed =
          close_socket r 1011 peer_joined_dropped (close_socket ws 1011 peer_joined_dropped s') in
        record closed { registry = delete closed.registry room.room_id }

-- What follows the ACK, which was dropped or not.
unfoldable pub finish_join : Deps → Socket → Room → Option Socket → Bool → Server → Server
finish_join deps ws room remaining true s = abandon_join deps ws room remaining s
finish_join deps ws room remaining false s = announce_join deps ws room remaining s

-- From `ws.data.roomId = roomIdHex` on: the room has been written to, the socket has its slot.
unfoldable pub enter_room : Deps → Socket → RoomId → Room → Option Socket → Role → Server → Server
enter_room deps ws id room remaining slot s =
    let s1 = record s {
      registry = put_back s.registry room;
      conns =
          update s.conns ws
            (record (s.conns ws) { room_id = some id; state = paired; role = some slot });
    } in
    let (s2, status) = safe_send deps ws (encode_ack slot) (pair_remaining remaining s1) in
    finish_join deps ws room remaining (is_dropped status) s2

unfoldable pub take_slot : Deps → Socket → RoomId → Room → Server → Server
take_slot deps ws id existing s =
    let remaining = or_else existing.initiator existing.joiner in
    let (room, slot) = add_peer existing ws deps.now in
    elim slot [
      | none ↦ send_error_and_close deps ws room_full s
      | some role ↦ enter_room deps ws id room remaining role s
    ]

abbrev pub is_resume : HelloIntent → Bool
is_resume resume = true
is_resume _ = false

unfoldable pub join_existing : Deps → Socket → HelloIntent → RoomId → Room → Server → Server
join_existing deps ws intent id existing s =
    if is_half_open existing.state && not (is_resume intent)
    then send_error_and_close deps ws room_full s
    else if not (has_free_slot existing)
    then send_error_and_close deps ws room_full s
    else take_slot deps ws id existing s

unfoldable pub join_found : Deps → Socket → HelloIntent → RoomId → Option Room → Server → Server
join_found deps ws intent id none s = send_error_and_close deps ws room_not_found s
join_found deps ws intent id (some existing) s = join_existing deps ws intent id existing s

unfoldable pub handle_join_or_resume : Deps → Socket → HelloIntent → RoomId → Server → Server
handle_join_or_resume deps ws intent id s =
    let (s1, allowed) = allow deps ws join_room s in
    if not allowed
    then send_error_and_close deps ws rate_limited s1
    else join_found deps ws intent id (get s1.registry id) s1

abbrev pub is_create : HelloIntent → Bool
is_create create = true
is_create _ = false

unfoldable pub handle_hello : Deps → Socket → Hello → Server → Server
handle_hello deps ws frame s =
    let s1 = clear_hello_timer ws s in
    let id = hex_encode frame.room_id in
    if not (is_pending (s1.conns ws).state)
    then send_error_and_close deps ws bad_state s1
    else if not (frame.version == protocol_version)
    then send_error_and_close deps ws unsupported_version s1
    else if is_create frame.intent
    then handle_create deps ws id s1
    else handle_join_or_resume deps ws frame.intent id s1
