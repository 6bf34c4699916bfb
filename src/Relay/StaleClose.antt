-- ===== src/Relay/StaleClose.antt =====
-- The close of a socket that is not in the room that its data name.
use unseen_fyi.Prelude.{◌≡◌, true, false, ◌||◌, some, arith, is_some}
use unseen_fyi.Prelude.Dict.{get, get-set}
use unseen_fyi.Prelude.Eq.{list_eq_instance, list_eq_iff}
use unseen_fyi.Room.Registry.{
  Socket, RoomId, Room, half_open, vacate, is_empty, half_opened_room, remove_other,
}
use unseen_fyi.Relay.State.{Server, Deps}
use unseen_fyi.Relay.Hello.{clear_hello_timer, disarm}
use unseen_fyi.Relay.Forward.{find_room}
use unseen_fyi.Relay.Events.{leave_room, handle_close}
use unseen_fyi.Relay.Invariant.Leave.{Without, after_remove-registry}

module _ (deps : Deps) (ws : Socket) (room : Room) (out : Without ws room) where
  half_opened-Without :
      half_opened_room room ws deps.now
      ≡ record room { state = half_open; last_activity_at_ms = deps.now }
  unfolding half_opened_room
  half_opened-Without = ground arith

  stays : is_some room.initiator || is_some room.joiner ≡ true → is_empty (vacate room ws) ≡ false
  unfolding is_empty vacate
  stays h = ground arith

  leave_room-Without :
      (s : Server)
      → is_some room.initiator || is_some room.joiner ≡ true
      → get (leave_room deps ws (some room) s).registry room.room_id
        ≡ some (record room { state = half_open; last_activity_at_ms = deps.now })
  unfolding leave_room
  leave_room-Without s h = rw after_remove-registry (
      rw (remove_other s.registry room ws deps.now (stays h)) (
        ground (
          arith,
          half_opened-Without,
          get-set s.registry room.room_id room.room_id (half_opened_room room ws deps.now),
          list_eq_iff room.room_id room.room_id,
        )))

  find_room-eq :
      (s : Server) (id : RoomId)
      → (s.conns ws).room_id ≡ some id
      → get s.registry id ≡ some room
      → find_room (clear_hello_timer ws s) ((clear_hello_timer ws s).conns ws).room_id ≡ some room
  unfolding clear_hello_timer disarm find_room
  find_room-eq s id at found = ground arith

-- The socket of an earlier room of the same id closes: though it is in neither slot of the room
-- that is there now, that room is put into the grace period, whatever its state was, and its
-- sockets stay in their slots.
pub stale_close :
    (deps : Deps) (ws : Socket) (id : RoomId) (room : Room) (s : Server)
    → (s.conns ws).room_id ≡ some id
    → get s.registry id ≡ some room
    → room.room_id ≡ id
    → Without ws room
    → is_some room.initiator || is_some room.joiner ≡ true
    → get (handle_close deps ws s).registry id
      ≡ some (record room { state = half_open; last_activity_at_ms = deps.now })
unfolding handle_close
stale_close deps ws id room s at found keyed out some_one =
    rw (find_room-eq deps ws room out s id at found, ← keyed)
      (leave_room-Without deps ws room out _ some_one)
