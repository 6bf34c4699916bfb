-- ===== src/Relay/Invariant/Events.antt =====
-- Every event of the relay keeps the invariant of the rooms.
use unseen_fyi.Prelude.{
  ℕ, ◌+◌, ◌-◌, ◌≡◌, inl, inr, refl, true, false, ◌||◌, not, Option, none, some, List, [], ◌∷◌,
  length, leb, ltb, update, contains, ◌==◌, if◌then◌else◌, Bool-cases,
}
use unseen_fyi.Prelude.Dict.{get}
use unseen_fyi.Prelude.Eq.{list_eq_instance}
use unseen_fyi.Wire.Bytes.{get_uint8}
use unseen_fyi.Wire.Codes.{
  rate_limited, invalid_payload, invalid_hello, over_capacity, hello_timeout, msg_hello,
  msg_handshake, msg_relay,
}
use unseen_fyi.Wire.Frames.{ClientFrame}
use unseen_fyi.Wire.Decode.{decode_client_frame}
use unseen_fyi.Room.Registry.{Socket, Room, Registry}
use unseen_fyi.Limit.IpLimiter.{connect}
use unseen_fyi.Relay.State.{start_server, Server, Deps, Config, Runtime, ConnectionData, is_pending}
use unseen_fyi.Relay.Send.{send_error_and_close}
use unseen_fyi.Relay.Hello.{allow}
use unseen_fyi.Relay.Events.{
  Incoming, text, binary, hello_or_reject, handle_message, start_hello_timer, hello_timer_fires,
  handle_open, on_close, SweepOutcome, close_initiator, end_remaining, waiting_too_long,
  grace_is_over, sweep_room, sweep_list, sweep_rooms, run_cleanup_tick, Event, opened, received,
  socket_closed, timer_fired, cleanup, remove_socket, step, run,
}
use unseen_fyi.Relay.Invariant.{Inv, Inv-delete, Inv-closed}
use unseen_fyi.Relay.Invariant.Rules.{
  Inv-if, safe_send-Inv, close_socket-Inv, send_error_and_close-Inv, allow-Inv,
  inc_capacity_reject-Inv, Inv-SamePlace,
}
use unseen_fyi.Relay.Invariant.Hello.{handle_hello-Inv}
use unseen_fyi.Relay.Invariant.Forward.{handle_forward-Inv}
use unseen_fyi.Relay.Invariant.Leave.{Inv-remove_socket, handle_close-Inv, handle_close-Gone}

module _ (deps : Deps) (ws : Socket) where
  hello_or_reject-Inv :
      (frame : Option ClientFrame) (s : Server)
      → contains s.alive ws ≡ true
      → Inv s
      → Inv (hello_or_reject deps ws frame s)
  unfolding hello_or_reject
  hello_or_reject-Inv (some (ClientFrame.hello frame)) s live h =
      handle_hello-Inv deps ws frame s live h
  hello_or_reject-Inv _ s live h = send_error_and_close-Inv deps ws invalid_hello s h

  handle_message-Inv :
      (message : Incoming) (s : Server)
      → contains s.alive ws ≡ true
      → Inv s
      → Inv (handle_message deps ws message s)
  unfolding handle_message
  handle_message-Inv text s live h = send_error_and_close-Inv deps ws invalid_payload s h
  handle_message-Inv (binary buf) s live h =
      Inv-if (ltb (length buf) 1) _ _ (λ _. refused)
        (λ _.
          Inv-if (get_uint8 buf 0 == msg_hello) _ _
            (λ _. hello_or_reject-Inv (decode_client_frame buf) s live h)
            (λ _.
              Inv-if (get_uint8 buf 0 == msg_handshake || get_uint8 buf 0 == msg_relay) _ _
                (λ _. handle_forward-Inv deps ws buf (get_uint8 buf 0) s h) (λ _. refused)))
    where
      refused : Inv (send_error_and_close deps ws invalid_payload s)
      refused = send_error_and_close-Inv deps ws invalid_payload s h

open_limit-Inv : (s : Server) → Inv s → (n : ℕ) → Inv (record s { open_connections = n })
open_limit-Inv s h n = record { rooms = h.rooms }

module _ (deps : Deps) (ws : Socket) where
  start_hello_timer-Inv : (s : Server) → Inv s → Inv (start_hello_timer ws s)
  unfolding start_hello_timer
  start_hello_timer-Inv s h =
      let armed : ConnectionData = record (s.conns ws) { hello_timer = true } in
      let h' = Inv-SamePlace s ws armed (refl, refl, refl) h in record { rooms = h'.rooms }

  admitted-Inv :
      (s : Server)
      → Inv s
      → Inv (record s {
        conns = update s.conns ws (record (s.conns ws) { admitted = true });
        open_connections = s.open_connections + 1;
      })
  admitted-Inv s h =
      let d : ConnectionData = record (s.conns ws) { admitted = true } in
      let h' = Inv-SamePlace s ws d (refl, refl, refl) h in record { rooms = h'.rooms }

  handle_open-Inv : (s : Server) → Inv s → Inv (handle_open deps ws s)
  unfolding handle_open
  handle_open-Inv s h =
      Inv-if (not (allow deps ws connect s).1) _ _
        (λ _. send_error_and_close-Inv deps ws rate_limited _ h1)
        (λ _.
          Inv-if (leb deps.config.max_connections (allow deps ws connect s).0.open_connections) _ _
            (λ _. send_error_and_close-Inv deps ws over_capacity _ (inc_capacity_reject-Inv _ h1))
            (λ _. start_hello_timer-Inv _ (admitted-Inv _ h1)))
    where
      h1 : Inv (allow deps ws connect s).0
      h1 = allow-Inv deps ws connect s h

  hello_timer_fires-Inv : (s : Server) → Inv s → Inv (hello_timer_fires deps ws s)
  unfolding hello_timer_fires
  hello_timer_fires-Inv s h =
      Inv-if (is_pending (s.conns ws).state) _ _
        (λ _. send_error_and_close-Inv deps ws hello_timeout _ fired) (λ _. fired)
    where
      fired : Inv (record s { timers = update s.timers ws false })
      fired = record { rooms = h.rooms }

  on_close-Inv :
      (s : Server)
      → Inv s
      → Inv (record (on_close deps ws s) { alive = remove_socket (on_close deps ws s).alive ws })
  unfolding on_close
  on_close-Inv s h =
      Inv-remove_socket _ ws (handle_close-Gone deps ws _ counted)
        (handle_close-Inv deps ws _ counted)
    where
      counted : Inv (
          if (s.conns ws).admitted
          then record s { open_connections = s.open_connections - 1 }
          else s)
      counted = Inv-if (s.conns ws).admitted _ s (λ _. record { rooms = h.rooms }) (λ _. h)

module _ (deps : Deps) where
  close_initiator-Inv : (o : Option Socket) (s : Server) → Inv s → Inv (close_initiator o s)
  unfolding close_initiator
  close_initiator-Inv none s h = h
  close_initiator-Inv (some ws) s h = close_socket-Inv ws _ _ s h

  end_remaining-Inv : (o : Option Socket) (s : Server) → Inv s → Inv (end_remaining deps o s)
  unfolding end_remaining
  end_remaining-Inv none s h = h
  end_remaining-Inv (some r) s h = close_socket-Inv r _ _ _ (safe_send-Inv deps r _ s h)

  sweep_room-Inv :
      (room : Room) (s : Server) (o : SweepOutcome) → Inv s → Inv (sweep_room deps room (s, o)).0
  unfolding sweep_room
  sweep_room-Inv room s o h = elim (Bool-cases (waiting_too_long deps room)) [
    | inl e ↦ rw e (Inv-delete _ room.room_id (close_initiator-Inv room.initiator s h))
    | inr e ↦ elim (Bool-cases (grace_is_over deps room)) [
      | inl g ↦ rw (e, g) (Inv-delete _ room.room_id (end_remaining-Inv _ s h))
      | inr g ↦ rw (e, g) h
    ]
  ]

  sweep_list-Inv :
      (rooms : Registry) (acc : Server × SweepOutcome)
      → Inv acc.0
      → Inv (sweep_list deps rooms acc).0
  unfolding sweep_list
  sweep_list-Inv [] acc h = h
  sweep_list-Inv ((id, room) ∷ rooms) acc h =
      sweep_list-Inv rooms (sweep_room deps room acc) (sweep_room-Inv room acc.0 acc.1 h)

  run_cleanup_tick-Inv : (s : Server) → Inv s → Inv (run_cleanup_tick deps s)
  unfolding run_cleanup_tick sweep_rooms
  run_cleanup_tick-Inv s h = let h' = sweep_list-Inv s.registry _ h in record { rooms = h'.rooms }

-- Every event keeps the rooms, the data of their sockets and the open sockets in agreement.
pub step-Inv : (deps : Deps) (event : Event) (s : Server) → Inv s → Inv (step deps event s)
unfolding step
step-Inv deps (opened ws ip) s h = elim (Bool-cases (contains s.alive ws)) [
  | inl e ↦ rw e h
  | inr e ↦ rw e (handle_open-Inv deps ws _ (record { rooms = (Inv-closed s ws _ e h).rooms }))
]
step-Inv deps (received ws message) s h = elim (Bool-cases (contains s.alive ws)) [
  | inl e ↦ rw e (handle_message-Inv deps ws message s e h)
  | inr e ↦ rw e h
]
step-Inv deps (socket_closed ws) s h =
    Inv-if (contains s.alive ws) _ s (λ _. on_close-Inv deps ws s h) (λ _. h)
step-Inv deps (timer_fired ws) s h =
    Inv-if (s.timers ws) _ s (λ _. hello_timer_fires-Inv deps ws s h) (λ _. h)
step-Inv deps cleanup s h = run_cleanup_tick-Inv deps s h

start_server-Inv : (config : Config) → Inv (start_server config)
unfolding start_server get
start_server-Inv config = record { rooms = λ id room e. cc }

run_from-Inv :
    (config : Config) (runtime : Runtime) (events : List (ℕ × Event)) (s : Server)
    → Inv s
    → Inv (run config runtime s events)
unfolding run
run_from-Inv config runtime [] s h = h
run_from-Inv config runtime ((now, event) ∷ events) s h =
    let deps : Deps = record { config = config; runtime = runtime; now = now } in
    run_from-Inv config runtime events (step deps event s) (step-Inv deps event s h)

-- From its start, whatever the events, their times and what the runtime answers, every room that
-- the relay holds is stored under its id; its two slots hold open sockets that have said HELLO and
-- whose data name this room and this slot; a waiting room has an initiator and no joiner, a paired
-- room has both and both may forward, and a room in its grace period has at least one.
pub run-Inv :
    (config : Config) (runtime : Runtime) (events : List (ℕ × Event))
    → Inv (run config runtime (start_server config) events)
run-Inv config runtime events = run_from-Inv config runtime events _ (start_server-Inv config)
