-- ===== src/Relay/Invariant/Hello.antt =====
-- A HELLO keeps the invariant of the rooms.
use unseen_fyi.Prelude.{
  ◌≡◌, refl, true, false, ◌&&◌, not, Option, none, some, arith, is_some, update, contains, ◌==◌,
}
use unseen_fyi.Prelude.Dict.{get}
use unseen_fyi.Prelude.Eq.{list_eq_instance}
use unseen_fyi.Wire.Codes.{
  initiator, HelloIntent, unsupported_version, room_full, room_not_found, room_already_exists,
  rate_limited, bad_state, protocol_version,
}
use unseen_fyi.Limit.IpLimiter.{IpAction, join_room}
use unseen_fyi.Limit.IpLimiter
use unseen_fyi.Wire.Frames.{Hello}
use unseen_fyi.Wire.Encode.{encode_ack}
use unseen_fyi.Room.Registry.{Socket, RoomId, Room, new_room, create, is_half_open, has_free_slot}
use unseen_fyi.Relay.State.{Server, Deps, ConnectionData, waiting_for_peer, is_pending, set_data}
use unseen_fyi.Relay.Send.{safe_send, send_error_and_close}
use unseen_fyi.Relay.Hello.{
  clear_hello_timer, disarm, allow, create_room, handle_create, join_existing,
  handle_join_or_resume, handle_hello, hex_encode, is_create, is_resume, join_found,
}
use unseen_fyi.Relay.Invariant.{Inv, RoomOk, Inv-delete, Inv-set, Inv-pending}
use unseen_fyi.Relay.Invariant.Rules.{
  Inv-if, safe_send-Inv, send_error_and_close-Inv, allow-Inv, clear_hello_timer-Inv,
}
use unseen_fyi.Relay.Invariant.Enter.{IsFresh, take_slot-Inv}

module _ (deps : Deps) (ws : Socket) (id : RoomId) (s : Server) (fresh : IsFresh s ws)
    (h : Inv s) where
  create_room-Inv : Inv (create_room deps ws id s)
  unfolding create_room create new_room
  create_room-Inv = Inv-if _ _ _ (λ _. Inv-delete _ id kept) (λ _. kept)
    where
      d : ConnectionData
      d = record (s.conns ws) { room_id = some id; state = waiting_for_peer; role = some initiator }

      opened : Inv (set_data s ws d)
      opened = Inv-pending s ws d fresh.0 h

      ok : RoomOk (update s.conns ws d) s.alive id (new_room id ws deps.now)
      ok = record {
        keyed = refl;
        initiator_in = λ w e. ground (arith, fresh);
        joiner_in = λ w e. cc;
        shaped = (refl, refl);
        settled_initiator = λ p w e. cc;
        settled_joiner = λ w e. cc;
      }

      kept :
          Inv
            (safe_send deps ws (encode_ack initiator) (record s {
              registry = create s.registry id ws deps.now;
              conns = update s.conns ws d;
            })).0
      kept =
          safe_send-Inv deps ws _ _ (Inv-set (set_data s ws d) (new_room id ws deps.now) ok opened)

module _ (deps : Deps) (ws : Socket) (id : RoomId) where
  join_existing-Inv :
      (intent : HelloIntent) (existing : Room) (s : Server)
      → IsFresh s ws
      → RoomOk s.conns s.alive id existing
      → Inv s
      → Inv (join_existing deps ws intent id existing s)
  unfolding join_existing
  join_existing-Inv intent existing s fresh ok h =
      Inv-if (is_half_open existing.state && not (is_resume intent)) _ _ (λ _. refused)
        (λ _.
          Inv-if (not (has_free_slot existing)) _ _ (λ _. refused)
            (λ _.
              take_slot-Inv deps ws id existing existing.initiator existing.joiner s refl refl fresh
                ok h))
    where
      refused : Inv (send_error_and_close deps ws room_full s)
      refused = send_error_and_close-Inv deps ws room_full s h

  join_found-Inv :
      (intent : HelloIntent) (found : Option Room) (s : Server)
      → get s.registry id ≡ found
      → IsFresh s ws
      → Inv s
      → Inv (join_found deps ws intent id found s)
  unfolding join_found
  join_found-Inv intent none s e fresh h = send_error_and_close-Inv deps ws room_not_found s h
  join_found-Inv intent (some existing) s e fresh h =
      join_existing-Inv intent existing s fresh (h.rooms id existing e) h

allow-IsFresh :
    (deps : Deps) (ws v : Socket) (action : IpAction) (s : Server)
    → IsFresh s v
    → IsFresh (allow deps ws action s).0 v
unfolding allow
allow-IsFresh deps ws v action s h = ground arith

clear_hello_timer-IsFresh :
    (ws : Socket) (s : Server)
    → contains s.alive ws ≡ true
    → contains (clear_hello_timer ws s).alive ws ≡ true
unfolding clear_hello_timer disarm
clear_hello_timer-IsFresh ws s h = ground arith

module _ (deps : Deps) (ws : Socket) (id : RoomId) (s : Server) (fresh : IsFresh s ws)
    (h : Inv s) where
  handle_create-Inv : Inv (handle_create deps ws id s)
  unfolding handle_create
  handle_create-Inv =
      Inv-if (not (allow deps ws IpLimiter.new_room s).1) _ _
        (λ _. send_error_and_close-Inv deps ws rate_limited _ h1)
        (λ _.
          Inv-if (is_some (get s1.registry id)) _ _
            (λ _. send_error_and_close-Inv deps ws room_already_exists _ h1)
            (λ _.
              create_room-Inv deps ws id s1 (allow-IsFresh deps ws ws IpLimiter.new_room s fresh)
                h1))
    where
      s1 : Server
      s1 = (allow deps ws IpLimiter.new_room s).0

      h1 : Inv s1
      h1 = allow-Inv deps ws IpLimiter.new_room s h

  handle_join_or_resume-Inv :
      (intent : HelloIntent) → Inv (handle_join_or_resume deps ws intent id s)
  unfolding handle_join_or_resume
  handle_join_or_resume-Inv intent =
      Inv-if (not (allow deps ws join_room s).1) _ _
        (λ _. send_error_and_close-Inv deps ws rate_limited _ h1)
        (λ _.
          join_found-Inv deps ws id intent _ s1 refl (allow-IsFresh deps ws ws join_room s fresh)
            h1)
    where
      s1 : Server
      s1 = (allow deps ws join_room s).0

      h1 : Inv s1
      h1 = allow-Inv deps ws join_room s h

-- Every HELLO of an open socket keeps the invariant.
pub handle_hello-Inv :
    (deps : Deps) (ws : Socket) (frame : Hello) (s : Server)
    → contains s.alive ws ≡ true
    → Inv s
    → Inv (handle_hello deps ws frame s)
unfolding handle_hello
handle_hello-Inv deps ws frame s live h =
    Inv-if (not (is_pending (s1.conns ws).state)) _ _
      (λ _. send_error_and_close-Inv deps ws bad_state _ h1)
      (λ p.
        Inv-if (not (frame.version == protocol_version)) _ _
          (λ _. send_error_and_close-Inv deps ws unsupported_version _ h1)
          (λ _.
            Inv-if (is_create frame.intent) _ _ (λ _. handle_create-Inv deps ws id s1 (fresh p) h1)
              (λ _. handle_join_or_resume-Inv deps ws id s1 (fresh p) h1 frame.intent)))
  where
    s1 : Server
    s1 = clear_hello_timer ws s

    id : RoomId
    id = hex_encode frame.room_id

    h1 : Inv s1
    h1 = clear_hello_timer-Inv ws s h

    fresh : not (is_pending (s1.conns ws).state) ≡ false → IsFresh s1 ws
    fresh p = (ground arith, clear_hello_timer-IsFresh ws s live)
