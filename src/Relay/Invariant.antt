-- ===== src/Relay/Invariant.antt =====
-- What holds between two events of the relay: the rooms of the registry, the data of the sockets in
-- them and the sockets that are open agree.
pub mod Rules
pub mod Enter
pub mod Hello
pub mod Forward
pub mod Leave
pub mod Events
use unseen_fyi.Prelude.{
  ℕ, ◌≡◌, ◌≢◌, ◌⊎◌, inl, inr, refl, Bool, true, false, ◌||◌, Option, none, some, List, [], ◌∷◌,
  arith, subst, Bool-cases, is_some, update, contains, list_eq, ◌==◌,
}
use unseen_fyi.Prelude.Dict.{get, set, delete, get-set, get-delete}
use unseen_fyi.Prelude.Eq.{list_eq_instance, list_eq_iff}
use unseen_fyi.Wire.Codes.{Role, initiator, joiner}
use unseen_fyi.Room.Registry.{
  Socket, RoomId, Room, RoomState, waiting, paired, half_open, is_waiting,
}
use unseen_fyi.Relay.State.{Server, ConnectionData, is_pending, is_paired, set_data}

-- The socket is open, and its data says that it is in the room under that role.
abbrev pub Occupies : (Socket → ConnectionData) → List Socket → RoomId → Role → Socket → Type 0
Occupies conns alive id role ws =
    ((conns ws).room_id ≡ some id)
    × ((conns ws).role ≡ some role)
    × (is_pending (conns ws).state ≡ false)
    × (contains alive ws ≡ true)

-- Which slots are taken in each state of a room.
abbrev pub Shape : RoomState → Option Socket → Option Socket → Type 0
Shape waiting i j = (is_some i ≡ true) × (j ≡ none)
Shape paired i j = (is_some i ≡ true) × (is_some j ≡ true)
Shape half_open i j = is_some i || is_some j ≡ true

abbrev pub is_full : RoomState → Bool
is_full paired = true
is_full _ = false

pub record RoomOk (conns : Socket → ConnectionData) (alive : List Socket) (id : RoomId)
    (room : Room) : Type 0 where
  pub keyed : room.room_id ≡ id
  pub initiator_in : (w : Socket) → room.initiator ≡ some w → Occupies conns alive id initiator w
  pub joiner_in : (w : Socket) → room.joiner ≡ some w → Occupies conns alive id joiner w
  pub shaped : Shape room.state room.initiator room.joiner
  -- In a paired room both sockets may forward, and whoever joined may.
  pub settled_initiator :
      is_full room.state ≡ true
      → (w : Socket) → room.initiator ≡ some w
      → is_paired (conns w).state ≡ true
  pub settled_joiner : (w : Socket) → room.joiner ≡ some w → is_paired (conns w).state ≡ true

pub record Inv (s : Server) : Type 0 where
  pub rooms :
      (id : RoomId) (room : Room) → get s.registry id ≡ some room → RoomOk s.conns s.alive id room

-- What may change in the data of a socket that is in a room.
pub record Extends (d d' : ConnectionData) : Type 0 where
  pub same_room : d'.room_id ≡ d.room_id
  pub same_role : d'.role ≡ d.role
  pub not_pending : is_pending d.state ≡ false → is_pending d'.state ≡ false
  pub still_paired : is_paired d.state ≡ true → is_paired d'.state ≡ true

module _ (conns : Socket → ConnectionData) (alive : List Socket) where
  pub RoomOk-extend :
      (ws : Socket) (d : ConnectionData) {id : RoomId} {room : Room}
      → Extends (conns ws) d
      → RoomOk conns alive id room
      → RoomOk (update conns ws d) alive id room
  RoomOk-extend ws d x h = record {
    keyed = h.keyed;
    initiator_in = λ w e. ground (arith, h.initiator_in w e);
    joiner_in = λ w e. ground (arith, h.joiner_in w e);
    shaped = h.shaped;
    settled_initiator = λ p w e. ground (arith, h.settled_initiator p w e);
    settled_joiner = λ w e. ground (arith, h.settled_joiner w e);
  }

  -- A socket that has not said HELLO is in no room.
  pub RoomOk-pending :
      (ws : Socket) (d : ConnectionData) {id : RoomId} {room : Room}
      → is_pending (conns ws).state ≡ true
      → RoomOk conns alive id room
      → RoomOk (update conns ws d) alive id room
  RoomOk-pending ws d p h = record {
    keyed = h.keyed;
    initiator_in = λ w e. ground (arith, h.initiator_in w e);
    joiner_in = λ w e. ground (arith, h.joiner_in w e);
    shaped = h.shaped;
    settled_initiator = λ q w e. ground (arith, h.initiator_in w e, h.settled_initiator q w e);
    settled_joiner = λ w e. ground (arith, h.joiner_in w e, h.settled_joiner w e);
  }

  -- Nor is one that is not open.
  pub RoomOk-closed :
      (ws : Socket) (d : ConnectionData) {id : RoomId} {room : Room}
      → contains alive ws ≡ false
      → RoomOk conns alive id room
      → RoomOk (update conns ws d) (ws ∷ alive) id room
  RoomOk-closed ws d p h = record {
    keyed = h.keyed;
    initiator_in = λ w e. ground (arith, h.initiator_in w e);
    joiner_in = λ w e. ground (arith, h.joiner_in w e);
    shaped = h.shaped;
    settled_initiator = λ q w e. ground (arith, h.initiator_in w e, h.settled_initiator q w e);
    settled_joiner = λ w e. ground (arith, h.joiner_in w e, h.settled_joiner w e);
  }

pub Inv-delete :
    (s : Server) (id : RoomId) → Inv s → Inv (record s { registry = delete s.registry id })
Inv-delete s id h = record {
  rooms = λ j room e. h.rooms j room (ground (arith, get-delete s.registry id j, list_eq_iff id j));
}

pub Inv-set :
    (s : Server) (room : Room)
    → RoomOk s.conns s.alive room.room_id room
    → Inv s
    → Inv (record s { registry = set s.registry room.room_id room })
Inv-set s room ok h = record {
  rooms = λ j r e. elim (Bool-cases (list_eq room.room_id j)) [
    | inl same ↦
        subst (λ k. RoomOk s.conns s.alive k r) ((list_eq_iff room.room_id j).0 same)
          (subst (RoomOk s.conns s.alive room.room_id)
            (ground (arith, get-set s.registry room.room_id j room)) ok)
    | inr other ↦ h.rooms j r (ground (arith, get-set s.registry room.room_id j room))
  ];
}

module _ (s : Server) (ws : Socket) (d : ConnectionData) where
  pub Inv-extend : Extends (s.conns ws) d → Inv s → Inv (set_data s ws d)
  Inv-extend x h = record { rooms = λ j r e. RoomOk-extend s.conns s.alive ws d x (h.rooms j r e) }

  pub Inv-pending : is_pending (s.conns ws).state ≡ true → Inv s → Inv (set_data s ws d)
  Inv-pending p h = record {
    rooms = λ j r e. RoomOk-pending s.conns s.alive ws d p (h.rooms j r e);
  }

  pub Inv-closed :
      contains s.alive ws ≡ false
      → Inv s
      → Inv (record s { conns = update s.conns ws d; alive = ws ∷ s.alive })
  Inv-closed p h = record { rooms = λ j r e. RoomOk-closed s.conns s.alive ws d p (h.rooms j r e) }
