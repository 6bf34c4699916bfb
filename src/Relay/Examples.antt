-- ===== src/Relay/Examples.antt =====
-- The theorems about the relay at concrete inputs.
use unseen_fyi.Prelude.{
  inl, none, ◌+◌, ℕ, ◌≡◌, refl, true, false, some, List, [], ◌∷◌, ◌++◌, arith, replicate,
}
use unseen_fyi.Prelude.Dict.{get}
use unseen_fyi.Prelude.Eq.{list_eq_instance}
use unseen_fyi.Wire.Bytes.{Bytes}
use unseen_fyi.Wire.Codes.{initiator, msg_relay, msg_handshake}
use unseen_fyi.Limit.Bucket.{default_relay_bucket}
use unseen_fyi.Limit.IpLimiter.{default_ip_limits, create_ip_limiter}
use unseen_fyi.Room.Registry.{Room, paired, half_open, get_peer}
use unseen_fyi.Prelude.Int.{pos}
use unseen_fyi.Relay.State.{
  ConnectionData, Config, Runtime, Deps, Server, ConnectionState, create_metrics_counters,
  start_server,
}
use unseen_fyi.Relay.Send.{classify}
use unseen_fyi.Relay.Hello.{hex_encode}
use unseen_fyi.Relay.Forward.{handle_forward}
use unseen_fyi.Relay.Events.{
  Event, Incoming, handle_message, handle_close, run, sweep_rooms, waiting_too_long, grace_is_over,
}
use unseen_fyi.Relay.Invariant.{Inv}
use unseen_fyi.Relay.Invariant.Events.{run-Inv}
use unseen_fyi.Relay.Isolation.{Emits, Forwards, handle_forward_isolated}
use unseen_fyi.Relay.Delivery.{Mates, Answered}
use unseen_fyi.Relay.Delivery.Relayed.{MayRelay, handle_message-relay}
use unseen_fyi.Relay.Delivery.Handshakes.{MayShake, handle_message-handshake}
use unseen_fyi.Relay.Sweep.{sweeps, expired, count_expired, sweep_rooms-expired}
use unseen_fyi.Relay.Relief.{Spaced, relieved, relieved-Spaced}
use unseen_fyi.Relay.StaleClose.{stale_close}

abbrev example_config : Config
example_config = record {
  ip_limits = default_ip_limits;
  relay_bucket = default_relay_bucket;
  grace_period_ms = 300_000;
  max_connections = 100;
}

-- Every send succeeds, and nothing is buffered.
abbrev example_runtime : Runtime
example_runtime = record { returned = λ out ws buf. pos 1; buffered = λ out ws. 0; is_ip = λ ip. 4 }

abbrev example_deps : Deps
example_deps = record { config = example_config; runtime = example_runtime; now = 5 }

abbrev example_room : Room
example_room = record {
  room_id = 7 ∷ [];
  initiator = some 1;
  joiner = some 2;
  state = paired;
  created_at_ms = 0;
  last_activity_at_ms = 0;
}

abbrev example_data : ConnectionData
example_data = record {
  state = ConnectionState.paired;
  room_id = some (7 ∷ []);
  role = some initiator;
  ip = [];
  admitted = true;
  hello_timer = false;
  relay_bucket = record { tokens = 120_000; last_refill_ms = 0 };
  handshake_forwards = 0;
}

abbrev example_server : Server
example_server = record {
  conns = λ ws. example_data;
  registry = (7 ∷ [], example_room) ∷ [];
  limiter = create_ip_limiter;
  counters = create_metrics_counters;
  open_connections = 3;
  timers = λ ws. false;
  alive = 1 ∷ 2 ∷ 3 ∷ [];
  out = [];
}

abbrev example_relay : Bytes
example_relay = msg_relay ∷ 0 ∷ []

abbrev example_handshake : Bytes
example_handshake = msg_handshake ∷ replicate 60 0

abbrev example_hello : Bytes
example_hello = 1 ∷ (replicate 16 9 ++ 1 ∷ 1 ∷ [])

-- Two sockets open, the first creates a room and leaves.
abbrev example_events : List (ℕ × Event)
example_events =
    (0, Event.opened 1 [])
    ∷ (1, Event.opened 2 [])
    ∷ (2, Event.received 1 (Incoming.binary example_hello))
    ∷ (3, Event.received 2 (Incoming.binary example_relay))
    ∷ (4, Event.socket_closed 1)
    ∷ (5, Event.cleanup)
    ∷ []

run-Inv_example :
    Inv (run example_config example_runtime (start_server example_config) example_events)
run-Inv_example = run-Inv example_config example_runtime example_events

handle_forward_isolated_example :
    Emits
      (Forwards example_server 1 example_relay)
      example_server
      (handle_forward example_deps 1 example_relay msg_relay example_server)
handle_forward_isolated_example =
    handle_forward_isolated example_deps 1 example_relay msg_relay example_server

example_found : get example_server.registry (7 ∷ []) ≡ some example_room
unfolding get
example_found = refl

-- The first socket creates a room, the second joins it.
abbrev example_meeting : List (ℕ × Event)
example_meeting =
    (0, Event.opened 1 [])
    ∷ (1, Event.opened 2 [])
    ∷ (2, Event.received 1 (Incoming.binary example_hello))
    ∷ (3, Event.received 2 (Incoming.binary (1 ∷ (replicate 16 9 ++ 1 ∷ 2 ∷ []))))
    ∷ []

abbrev example_met : Server
example_met = run example_config example_runtime (start_server example_config) example_meeting

abbrev example_met_room : Room
example_met_room = record {
  room_id = hex_encode (replicate 16 9);
  initiator = some 1;
  joiner = some 2;
  state = paired;
  created_at_ms = 2;
  last_activity_at_ms = 3;
}

example_stored : get example_met.registry (hex_encode (replicate 16 9)) ≡ some example_met_room
unfolding run get hex_encode unseen_fyi.Relay.Hello.hex_digit unseen_fyi.Room.Registry.has_free_slot
    unseen_fyi.Relay.Hello.announce_join unseen_fyi.Relay.Hello.pair_remaining
    unseen_fyi.Relay.Events.step start_server unseen_fyi.Relay.Events.handle_open
    unseen_fyi.Relay.Hello.allow unseen_fyi.Limit.IpLimiter.check
    unseen_fyi.Relay.Events.start_hello_timer handle_message unseen_fyi.Relay.Events.hello_or_reject
    unseen_fyi.Wire.Decode.decode_client_frame unseen_fyi.Wire.Decode.decode_hello
    unseen_fyi.Wire.Codes.byte_to_intent unseen_fyi.Relay.Hello.handle_hello
    unseen_fyi.Relay.Hello.clear_hello_timer unseen_fyi.Relay.Hello.disarm
    unseen_fyi.Relay.Hello.handle_create unseen_fyi.Relay.Hello.create_room
    unseen_fyi.Room.Registry.create unseen_fyi.Relay.Hello.handle_join_or_resume
    unseen_fyi.Relay.Hello.join_found unseen_fyi.Relay.Hello.join_existing
    unseen_fyi.Relay.Hello.take_slot unseen_fyi.Relay.Hello.enter_room
    unseen_fyi.Relay.Hello.finish_join unseen_fyi.Room.Registry.add_peer unseen_fyi.Prelude.Dict.set
    unseen_fyi.Relay.Send.safe_send classify unseen_fyi.Room.Registry.get_peer
    unseen_fyi.Room.Registry.put_back
example_stored = refl

example-Mates : Mates example_met 1 2
example-Mates = record {
  id = hex_encode (replicate 16 9);
  room = example_met_room;
  stored = example_stored;
  full = refl;
  slots = inl (refl, refl);
}

handle_message-relay_example :
    Answered
      (MayRelay example_deps 1 2 example_relay example_met)
      example_deps
      1
      2
      example_relay
      example_met.out
      example_met.counters.relays_total
      1
      (example_met.conns 1).handshake_forwards
      (handle_message example_deps 1 (Incoming.binary example_relay) example_met)
handle_message-relay_example =
    handle_message-relay example_deps 1 2 (0 ∷ []) example_met
      (run-Inv example_config example_runtime example_meeting) example-Mates

handle_message-handshake_example :
    Answered
      (MayShake example_deps 1 2 example_handshake example_met)
      example_deps
      1
      2
      example_handshake
      example_met.out
      example_met.counters.relays_total
      0
      1
      (handle_message example_deps 1 (Incoming.binary example_handshake) example_met)
handle_message-handshake_example =
    handle_message-handshake example_deps 1 2 (replicate 60 0) example_met
      (run-Inv example_config example_runtime example_meeting) example-Mates

stale_close_example :
    get (handle_close example_deps 3 example_server).registry (7 ∷ [])
    ≡ some (record example_room { state = half_open; last_activity_at_ms = 5 })
stale_close_example =
    stale_close example_deps 3 (7 ∷ []) example_room example_server refl example_found refl
      (refl, refl) refl

-- Beside the paired room, one whose grace period is over.
abbrev example_left : Server
example_left = record example_server {
  registry =
      (8 ∷ [], record example_room { room_id = 8 ∷ []; state = half_open })
      ∷ (7 ∷ [], example_room)
      ∷ [];
}

sweep_rooms-expired_example :
    (get (sweep_rooms (record example_deps { now = 900_000 }) example_left).0.registry (8 ∷ [])
      ≡ none)
    × ((sweep_rooms (record example_deps { now = 900_000 }) example_left).1.waiting_expired
          + (sweep_rooms (record example_deps { now = 900_000 }) example_left).1.grace_expired
        ≡ 1)
unfolding sweeps expired count_expired waiting_too_long grace_is_over
sweep_rooms-expired_example =
    sweep_rooms-expired (record example_deps { now = 900_000 }) example_left (8 ∷ [])

relieved-Spaced_example : Spaced none (relieved none (5 ∷ 600 ∷ 2000 ∷ []))
relieved-Spaced_example = relieved-Spaced none (5 ∷ 600 ∷ 2000 ∷ [])
