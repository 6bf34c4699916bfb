-- ===== src/Relay/Sweep.antt =====
-- Which rooms a sweep takes away.
use unseen_fyi.Prelude.{
  ℕ, ◌+◌, ◌≡◌, refl, ◌∙◌, Bool, false, ◌&&◌, ◌||◌, Option, none, some, [], ◌∷◌, arith, list_eq,
  or_else, if◌then◌else◌,
}
use unseen_fyi.Prelude.Dict.{get, delete, get-delete}
use unseen_fyi.Prelude.Eq.{list_eq_instance}
use unseen_fyi.Room.Registry.{Socket, RoomId, Room, Registry}
use unseen_fyi.Relay.State.{Server, Deps}
use unseen_fyi.Relay.Send.{safe_send, close_socket}
use unseen_fyi.Relay.Events.{
  SweepOutcome, close_initiator, end_remaining, waiting_too_long, grace_is_over, sweep_room,
  sweep_list, sweep_rooms,
}

module _ (deps : Deps) where
  -- The room has waited too long for a second socket, or its grace period is over.
  unfoldable pub expired : Room → Bool
  expired room = waiting_too_long deps room || grace_is_over deps room

  -- One of the rooms has this id and has expired.
  unfoldable pub sweeps : Registry → RoomId → Bool
  unfolding expired
  sweeps [] id = false
  sweeps ((_, room) ∷ rooms) id =
      let later = sweeps rooms id in (list_eq room.room_id id && expired room) || later

  unfoldable pub count_expired : Registry → ℕ
  unfolding expired
  count_expired [] = 0
  count_expired ((_, room) ∷ rooms) =
      let rest = count_expired rooms in if expired room then rest + 1 else rest

  close_initiator-registry :
      (w : Option Socket) (s : Server) → (close_initiator w s).registry ≡ s.registry
  unfolding close_initiator close_socket
  close_initiator-registry none s = refl
  close_initiator-registry (some w) s = refl

  end_remaining-registry :
      (w : Option Socket) (s : Server) → (end_remaining deps w s).registry ≡ s.registry
  unfolding end_remaining close_socket safe_send
  end_remaining-registry none s = refl
  end_remaining-registry (some w) s = refl

  sweep_room-registry :
      (room : Room) (s : Server) (o : SweepOutcome)
      → (sweep_room deps room (s, o)).0.registry
        ≡ (if expired room then delete s.registry room.room_id else s.registry)
  unfolding sweep_room expired
  sweep_room-registry room s o = ground (
    arith,
    close_initiator-registry room.initiator s,
    end_remaining-registry (or_else room.initiator room.joiner) s,
  )

  sweep_room-count :
      (room : Room) (s : Server) (o : SweepOutcome)
      → let o' = (sweep_room deps room (s, o)).1 in
        o'.waiting_expired + o'.grace_expired
        ≡ o.waiting_expired + o.grace_expired + (if expired room then 1 else 0)
  unfolding sweep_room expired
  sweep_room-count room s o = ground arith

  sweep_list-get :
      (rooms : Registry) (s : Server) (o : SweepOutcome) (id : RoomId)
      → get (sweep_list deps rooms (s, o)).0.registry id
        ≡ (if sweeps rooms id then none else get s.registry id)
  unfolding sweep_list sweeps
  sweep_list-get [] s o id = refl
  sweep_list-get ((_, room) ∷ rooms) s o id =
      let (s', o') = sweep_room deps room (s, o) in
      sweep_list-get rooms s' o' id
      ∙ ground (arith, sweep_room-registry room s o, get-delete s.registry room.room_id id)

  sweep_list-count :
      (rooms : Registry) (s : Server) (o : SweepOutcome)
      → let o' = (sweep_list deps rooms (s, o)).1 in
        o'.waiting_expired + o'.grace_expired
        ≡ o.waiting_expired + o.grace_expired + count_expired rooms
  unfolding sweep_list count_expired
  sweep_list-count [] s o = omega arith
  sweep_list-count ((_, room) ∷ rooms) s o =
      let (s', o') = sweep_room deps room (s, o) in
      ground (arith, sweep_list-count rooms s' o', sweep_room-count room s o)

  -- Under any id: a sweep takes away the room if a room of this id has waited too long or its grace
  -- period is over, and else keeps it as it was; and it reports how many rooms have expired.
  pub sweep_rooms-expired :
      (s : Server) (id : RoomId)
      → (get (sweep_rooms deps s).0.registry id
          ≡ (if sweeps s.registry id then none else get s.registry id))
        × ((sweep_rooms deps s).1.waiting_expired + (sweep_rooms deps s).1.grace_expired
            ≡ count_expired s.registry)
  unfolding sweep_rooms
  sweep_rooms-expired s id = (
    sweep_list-get s.registry s (record { waiting_expired = 0; grace_expired = 0 }) id,
    omega
        (arith, sweep_list-count s.registry s (record { waiting_expired = 0; grace_expired = 0 })),
  )
