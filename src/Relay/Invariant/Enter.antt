-- ===== src/Relay/Invariant/Enter.antt =====
-- A socket that enters a room keeps the invariant of the rooms.
use unseen_fyi.Prelude.{
  ℕ, ◌≡◌, inl, inr, refl, sym, subst, Bool, true, false, ◌||◌, Option, none, some, List, arith,
  is_some, update, contains, ◌==◌, if◌then◌else◌, Bool-cases, list_eq,
}
use unseen_fyi.Prelude.Dict.{get, set, delete, get-set, get-delete}
use unseen_fyi.Prelude.Eq.{list_eq_instance}
use unseen_fyi.Wire.Codes.{Role, initiator, joiner}
use unseen_fyi.Wire.Encode.{encode_ack, encode_peer_joined}
use unseen_fyi.Room.Registry.{
  Socket, RoomId, Room, Registry, RoomState, waiting, paired, half_open, put_back, add_peer, remove,
  vacate,
}
use unseen_fyi.Relay.State.{
  Server, Deps, Effect, ConnectionData, ConnectionState, is_pending, set_data, ack_dropped,
  peer_joined_dropped,
}
use unseen_fyi.Relay.Send.{safe_send, close_socket}
use unseen_fyi.Relay.Hello.{
  pair_remaining, close_both, abandon_join, announce_join, finish_join, enter_room, take_slot,
}
use unseen_fyi.Relay.Invariant.{
  Inv, RoomOk, Occupies, Shape, Inv-delete, Inv-set, Inv-extend, Inv-pending,
}
use unseen_fyi.Relay.Invariant.Rules.{
  Inv-if, safe_send-Inv, close_socket-Inv, send_error_and_close-Inv,
}

-- The socket is open and has not said HELLO.
abbrev pub IsFresh : Server → Socket → Type 0
IsFresh s ws = (is_pending (s.conns ws).state ≡ true) × (contains s.alive ws ≡ true)

abbrev other : Role → Role
other initiator = joiner
other joiner = initiator

-- The socket has the slot and the other one has the other slot.
abbrev Seated : Room → Role → Socket → Socket → Type 0
Seated room initiator ws r = (room.initiator ≡ some ws) × (room.joiner ≡ some r)
Seated room joiner ws r = (room.initiator ≡ some r) × (room.joiner ≡ some ws)

abbrev entered : Server → Socket → RoomId → Room → Role → Server
entered s ws id room slot = record s {
  registry = put_back s.registry room;
  conns =
      update s.conns ws (record (s.conns ws) {
        room_id = some id;
        state = ConnectionState.paired;
        role = some slot;
      });
}

module _ (ws r : Socket) (id : RoomId) (room : Room) (s : Server) (keyed : room.room_id ≡ id)
    (full : room.state ≡ paired) (fresh : IsFresh s ws) where
  RoomOk-entered :
      (slot : Role)
      → Seated room slot ws r
      → Occupies s.conns s.alive id (other slot) r
      → let s' = pair_remaining (some r) (entered s ws id room slot) in
        RoomOk s'.conns s'.alive id room
  unfolding pair_remaining
  RoomOk-entered initiator seated peer = record {
    keyed = keyed;
    initiator_in = λ w e. ground arith;
    joiner_in = λ w e. ground arith;
    shaped = ground arith;
    settled_initiator = λ p w e. ground arith;
    settled_joiner = λ w e. ground arith;
  }
  RoomOk-entered joiner seated peer = record {
    keyed = keyed;
    initiator_in = λ w e. ground arith;
    joiner_in = λ w e. ground arith;
    shaped = ground arith;
    settled_initiator = λ p w e. ground arith;
    settled_joiner = λ w e. ground arith;
  }

  entered-Inv :
      (slot : Role)
      → Seated room slot ws r
      → Occupies s.conns s.alive id (other slot) r
      → Inv s
      → Inv (pair_remaining (some r) (entered s ws id room slot))
  unfolding pair_remaining put_back
  entered-Inv slot seated peer h =
      Inv-set sB room
        (subst (λ k. RoomOk sB.conns sB.alive k room) (sym keyed) (RoomOk-entered slot seated peer))
        (Inv-extend sA r dr
          (record {
            same_room = refl;
            same_role = refl;
            not_pending = λ _. refl;
            still_paired = λ _. refl;
          })
          (Inv-pending s ws d fresh.0 h))
    where
      d : ConnectionData
      d = record (s.conns ws) {
        room_id = some id;
        state = ConnectionState.paired;
        role = some slot;
      }

      sA : Server
      sA = set_data s ws d

      dr : ConnectionData
      dr = record (sA.conns r) { state = ConnectionState.paired }

      sB : Server
      sB = set_data sA r dr

-- Closing sockets only adds to what was asked of the runtime.
close_both-out :
    (ws : Socket) (o : Option Socket) (s : Server)
    → (out' : List Effect) × (close_both ws o s ≡ record s { out = out' })
unfolding close_both close_socket
close_both-out ws none s = (s.out, refl)
close_both-out ws (some r) s = elim (Bool-cases (r == ws)) [
  | inl e ↦ (s.out, rw e)
  | inr e ↦ ((close_socket r 1011 ack_dropped (close_socket ws 1011 ack_dropped s)).out, rw e)
]

module _ (rooms : Registry) (room : Room) (ws : Socket) (now : ℕ) where
  get-delete_removed :
      (j : RoomId)
      → get (delete (remove rooms room ws now).0 (remove rooms room ws now).1.room_id) j
        ≡ (if list_eq room.room_id j then none else get rooms j)
  unfolding remove vacate put_back
  get-delete_removed j = ground (
    arith,
    get-delete (delete rooms room.room_id) room.room_id j,
    get-delete rooms room.room_id j,
    get-delete (set rooms room.room_id half) room.room_id j,
    get-set rooms room.room_id j half,
  )
    where
      half : Room
      half = record (vacate room ws) { state = half_open; last_activity_at_ms = now }

abandon_join-Inv :
    (deps : Deps) (ws : Socket) (room : Room) (remaining : Option Socket) (s : Server)
    → Inv s
    → Inv (abandon_join deps ws room remaining s)
unfolding abandon_join
abandon_join-Inv deps ws room remaining s h =
    let out =
      close_both-out ws remaining
        (record s { registry = (remove s.registry room ws deps.now).0 }) in
    rw (out.1) (record {
      rooms =
          λ j r e. h.rooms j r (ground (arith, get-delete_removed s.registry room ws deps.now j));
    })

announce_join-Inv :
    (deps : Deps) (ws : Socket) (room : Room) (remaining : Option Socket) (s : Server)
    → Inv s
    → Inv (announce_join deps ws room remaining s)
unfolding announce_join
announce_join-Inv deps ws room none s h = h
announce_join-Inv deps ws room (some r) s h =
    Inv-if (r == ws) s _ (λ _. h)
      (λ _.
        Inv-if _ _ _ (λ _. told)
          (λ _. Inv-delete _ room.room_id (
            close_socket-Inv r 1011 peer_joined_dropped _
              (close_socket-Inv ws 1011 peer_joined_dropped _ told))))
  where
    told : Inv (safe_send deps r encode_peer_joined s).0
    told = safe_send-Inv deps r encode_peer_joined s h

finish_join-Inv :
    (deps : Deps) (ws : Socket) (room : Room) (remaining : Option Socket) (dropped : Bool)
    (s : Server)
    → Inv s
    → Inv (finish_join deps ws room remaining dropped s)
unfolding finish_join
finish_join-Inv deps ws room remaining true s h = abandon_join-Inv deps ws room remaining s h
finish_join-Inv deps ws room remaining false s h = announce_join-Inv deps ws room remaining s h

Shape-taken :
    (state : RoomState) (i j : Option Socket) → Shape state i j → is_some i || is_some j ≡ true
Shape-taken waiting i j h = ground arith
Shape-taken paired i j h = ground arith
Shape-taken half_open i j h = h

module _ (deps : Deps) (ws : Socket) (id : RoomId) where
  enter_room-Inv :
      (room : Room) (r : Socket) (slot : Role) (s : Server)
      → Inv (pair_remaining (some r) (entered s ws id room slot))
      → Inv (enter_room deps ws id room (some r) slot s)
  unfolding enter_room
  enter_room-Inv room r slot s h =
      finish_join-Inv deps ws room (some r) _ _ (safe_send-Inv deps ws (encode_ack slot) _ h)

  -- The four ways in which the slots can be taken.
  pub take_slot-Inv :
      (existing : Room) (i j : Option Socket) (s : Server)
      → existing.initiator ≡ i
      → existing.joiner ≡ j
      → IsFresh s ws
      → RoomOk s.conns s.alive id existing
      → Inv s
      → Inv (take_slot deps ws id existing s)
  unfolding take_slot add_peer
  take_slot-Inv existing none none s ei ej fresh ok h =
      absurd
        (ground (arith, Shape-taken existing.state existing.initiator existing.joiner ok.shaped))
  take_slot-Inv existing (some a) none s ei ej fresh ok h =
      rw (ei, ej)
        (enter_room-Inv _ a joiner s (
          entered-Inv ws a id _ s ok.keyed refl fresh joiner (refl, refl) (ok.initiator_in a ei) h))
  take_slot-Inv existing none (some b) s ei ej fresh ok h =
      rw (ei, ej)
        (enter_room-Inv _ b initiator s (
          entered-Inv ws b id _ s ok.keyed refl fresh initiator (refl, refl) (ok.joiner_in b ej) h))
  take_slot-Inv existing (some a) (some b) s ei ej fresh ok h =
      rw (ei, ej) (send_error_and_close-Inv deps ws _ s h)
