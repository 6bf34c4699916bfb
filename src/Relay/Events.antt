-- ===== src/Relay/Events.antt =====
-- The events of the relay: `open`, `message` and `close` of `createHandlers`, the timeout of
-- `startHelloTimer`, the sweep of server/src/room/cleanup.ts, and the history of a server.
use unseen_fyi.Prelude.{
  ℕ, ◌+◌, ◌-◌, Bool, true, false, not, ◌||◌, ◌&&◌, Option, none, some, List, [], ◌∷◌, length, leb,
  ltb, ◌==◌, if◌then◌else◌, or_else, update, contains,
}
use unseen_fyi.Prelude.Dict.{delete}
use unseen_fyi.Prelude.Eq.{list_eq_instance}
use unseen_fyi.Prelude.Result.{Result, ok, err}
use unseen_fyi.Wire.Bytes.{Bytes, get_uint8}
use unseen_fyi.Wire.Codes.{
  invalid_hello, invalid_payload, rate_limited, over_capacity, hello_timeout, msg_hello,
  msg_handshake, msg_relay,
}
use unseen_fyi.Wire.Frames.{ClientFrame}
use unseen_fyi.Wire.Encode.{encode_peer_disconnected, encode_peer_left}
use unseen_fyi.Wire.Decode.{decode_client_frame}
use unseen_fyi.Limit.IpKey.{Text}
use unseen_fyi.Limit.IpLimiter.{connect, gc}
use unseen_fyi.Room.Registry.{
  Socket, Room, is_half_open, is_waiting, RemoveResult, half_opened, closed, remove,
}
use unseen_fyi.Room.Registry
use unseen_fyi.Relay.State.{
  Server, Deps, Config, Runtime, is_pending, inc_capacity_reject, inc_connection, timeout,
  grace_expired, create_initial_connection_data,
}
use unseen_fyi.Relay.Send.{safe_send, close_socket, send_error_and_close}
use unseen_fyi.Relay.Hello.{clear_hello_timer, allow, handle_hello}
use unseen_fyi.Relay.Forward.{find_room, handle_forward}

abbrev pub grace_ms_hint : ℕ
grace_ms_hint = 300_000

-- shared/src/limits.ts
abbrev pub initiator_wait_timeout_ms : ℕ
initiator_wait_timeout_ms = 300_000

-- The bytes of an encoder that was given a constant in range.
abbrev pub payload : Result Bytes → Bytes
payload (ok bytes) = bytes
payload (err message) = []

-- What `message` is given: a text, or bytes.
pub data Incoming : Type 0 where
  text : Incoming
  binary : Bytes → Incoming

unfoldable pub hello_or_reject : Deps → Socket → Option ClientFrame → Server → Server
hello_or_reject deps ws (some (ClientFrame.hello frame)) s = handle_hello deps ws frame s
hello_or_reject deps ws _ s = send_error_and_close deps ws invalid_hello s

unfoldable pub handle_message : Deps → Socket → Incoming → Server → Server
handle_message deps ws text s = send_error_and_close deps ws invalid_payload s
handle_message deps ws (binary buf) s =
    if ltb (length buf) 1
    then send_error_and_close deps ws invalid_payload s
    else if get_uint8 buf 0 == msg_hello
    then hello_or_reject deps ws (decode_client_frame buf) s
    else if get_uint8 buf 0 == msg_handshake || get_uint8 buf 0 == msg_relay
    then handle_forward deps ws buf (get_uint8 buf 0) s
    else send_error_and_close deps ws invalid_payload s

-- The other socket is told that its peer is gone.
unfoldable pub tell_remaining : Deps → Socket → Option Socket → Server → Server
tell_remaining deps ws none s = s
tell_remaining deps ws (some r) s =
    if r == ws then s else (safe_send deps r (payload (encode_peer_disconnected grace_ms_hint)) s).0

unfoldable pub after_remove : Deps → Socket → Room → RemoveResult → Server → Server
after_remove deps ws room closed s = s
after_remove deps ws room half_opened s =
    tell_remaining deps ws (or_else room.initiator room.joiner) s

unfoldable pub leave_room : Deps → Socket → Option Room → Server → Server
leave_room deps ws none s = s
leave_room deps ws (some room) s =
    let (rooms, room', result) = remove s.registry room ws deps.now in
    after_remove deps ws room' result (record s { registry = rooms })

unfoldable pub handle_close : Deps → Socket → Server → Server
handle_close deps ws s =
    let s1 = clear_hello_timer ws s in leave_room deps ws (find_room s1 (s1.conns ws).room_id) s1

unfoldable pub start_hello_timer : Socket → Server → Server
start_hello_timer ws s = record s {
  conns = update s.conns ws (record (s.conns ws) { hello_timer = true });
  timers = update s.timers ws true;
}

unfoldable pub hello_timer_fires : Deps → Socket → Server → Server
hello_timer_fires deps ws s =
    let s' = record s { timers = update s.timers ws false } in
    if is_pending (s'.conns ws).state then send_error_and_close deps ws hello_timeout s' else s'

unfoldable pub handle_open : Deps → Socket → Server → Server
handle_open deps ws s =
    let (s1, allowed) = allow deps ws connect s in
    if not allowed
    then send_error_and_close deps ws rate_limited s1
    else if leb deps.config.max_connections s1.open_connections
    then send_error_and_close deps ws over_capacity (inc_capacity_reject s1)
    else start_hello_timer ws (record s1 {
      conns = update s1.conns ws (record (s1.conns ws) { admitted = true });
      open_connections = s1.open_connections + 1;
    })

-- The `close` of `createHandlers`. What is subtracted was added when the socket was admitted.
unfoldable pub on_close : Deps → Socket → Server → Server
on_close deps ws s =
    handle_close deps ws
      (if (s.conns ws).admitted then record s { open_connections = s.open_connections - 1 } else s)

pub record SweepOutcome : Type 0 where
  pub waiting_expired : ℕ
  pub grace_expired : ℕ

unfoldable pub close_initiator : Option Socket → Server → Server
close_initiator none s = s
close_initiator (some ws) s = close_socket ws 1000 timeout s

unfoldable pub end_remaining : Deps → Option Socket → Server → Server
end_remaining deps none s = s
end_remaining deps (some r) s =
    close_socket r 1000 grace_expired (safe_send deps r encode_peer_left s).0

unfoldable pub waiting_too_long : Deps → Room → Bool
waiting_too_long deps room =
    is_waiting room.state && ltb initiator_wait_timeout_ms (deps.now - room.created_at_ms)

unfoldable pub grace_is_over : Deps → Room → Bool
grace_is_over deps room =
    is_half_open room.state && leb deps.config.grace_period_ms (deps.now - room.last_activity_at_ms)

-- One round of the loop of `sweepRooms`.
unfoldable pub sweep_room : Deps → Room → Server × SweepOutcome → Server × SweepOutcome
sweep_room deps room (s, o) =
    if waiting_too_long deps room
    then (let s' = close_initiator room.initiator s in
        (
          record s' { registry = delete s'.registry room.room_id },
          record o { waiting_expired = o.waiting_expired + 1 },
        ))
    else if grace_is_over deps room
    then (let s' = end_remaining deps (or_else room.initiator room.joiner) s in
        (
          record s' { registry = delete s'.registry room.room_id },
          record o { grace_expired = o.grace_expired + 1 },
        ))
    else (s, o)

-- The loop goes over the rooms that the registry held when it began.
unfoldable pub sweep_list : Deps → Registry.Registry → Server × SweepOutcome → Server × SweepOutcome
sweep_list deps [] acc = acc
sweep_list deps ((_, room) ∷ rooms) acc = sweep_list deps rooms (sweep_room deps room acc)

unfoldable pub sweep_rooms : Deps → Server → Server × SweepOutcome
sweep_rooms deps s =
    sweep_list deps s.registry (s, record { waiting_expired = 0; grace_expired = 0 })

unfoldable pub run_cleanup_tick : Deps → Server → Server
run_cleanup_tick deps s =
    let s' = (sweep_rooms deps s).0 in record s' { limiter = gc s'.limiter deps.now }

-- What the runtime brings to the relay.
pub data Event : Type 0 where
  opened : Socket → Text → Event
  received : Socket → Incoming → Event
  socket_closed : Socket → Event
  timer_fired : Socket → Event
  cleanup : Event

unfoldable pub remove_socket : List Socket → Socket → List Socket
remove_socket [] ws = []
remove_socket (v ∷ vs) ws = let rest = remove_socket vs ws in if v == ws then rest else v ∷ rest

-- The runtime opens a socket once, under a new identity, and then brings its messages and its one
-- close; it fires a timer that is armed. An event that the runtime does not bring changes nothing.
unfoldable pub step : Deps → Event → Server → Server
step deps (opened ws ip) s =
    if contains s.alive ws
    then s
    else handle_open deps ws (
        inc_connection (record s {
          conns = update s.conns ws (create_initial_connection_data ip deps.config deps.now);
          alive = ws ∷ s.alive;
        }))
step deps (received ws message) s =
    if contains s.alive ws then handle_message deps ws message s else s
step deps (socket_closed ws) s =
    if contains s.alive ws
    then (let s' = on_close deps ws s in record s' { alive = remove_socket s'.alive ws })
    else s
step deps (timer_fired ws) s = if s.timers ws then hello_timer_fires deps ws s else s
step deps cleanup s = run_cleanup_tick deps s

-- A history: each event comes with the time at which it is handled.
unfoldable pub run : Config → Runtime → Server → List (ℕ × Event) → Server
run config runtime s [] = s
run config runtime s ((now, event) ∷ events) =
    run config runtime (step (record { config = config; runtime = runtime; now = now }) event s)
      events
