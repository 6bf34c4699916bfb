-- ===== src/Room/Registry.antt =====
-- server/src/room/registry.ts and keepalive.ts. A socket is a number, its identity. A room is an
-- object that the registry's map holds: an operation that writes to it returns the new room, and
-- `put_back` stores it under its id.
use unseen_fyi.Prelude.{
  ◌≡◌, ℕ, ◌+◌, Bool, true, false, ◌&&◌, ◌||◌, not, Option, none, some, List, [], ◌∷◌, is_at,
  is_some, if◌then◌else◌,
}
use unseen_fyi.Prelude.Dict.{Dict, set, delete}
use unseen_fyi.Prelude.Eq.{list_eq_instance}
use unseen_fyi.Wire.Codes.{Role, initiator, joiner}

abbrev pub Socket : Type 0
Socket = ℕ

abbrev pub RoomId : Type 0
RoomId = List ℕ

pub data RoomState : Type 0 where
  waiting paired half_open : RoomState

pub record Room : Type 0 where
  pub room_id : RoomId
  pub initiator : Option Socket
  pub joiner : Option Socket
  pub state : RoomState
  pub created_at_ms : ℕ
  pub last_activity_at_ms : ℕ

abbrev pub is_half_open : RoomState → Bool
is_half_open half_open = true
is_half_open _ = false

abbrev pub is_waiting : RoomState → Bool
is_waiting waiting = true
is_waiting _ = false

unfoldable pub has_free_slot : Room → Bool
has_free_slot room = not (is_some room.initiator) || not (is_some room.joiner)

-- The slot that the socket takes; `none` is 'full'.
unfoldable pub add_peer : Room → Socket → ℕ → Room × Option Role
add_peer room ws now =
    if not (is_some room.initiator)
    then (
      record room {
        initiator = some ws;
        state = if is_some room.joiner then paired else waiting;
        last_activity_at_ms = now;
      },
      some initiator,
    )
    else if not (is_some room.joiner)
    then (record room { joiner = some ws; state = paired; last_activity_at_ms = now }, some joiner)
    else (room, none)

unfoldable pub get_peer : Room → Socket → Option Socket
get_peer room ws =
    if is_at room.initiator ws
    then room.joiner
    else if is_at room.joiner ws
    then room.initiator
    else none

abbrev pub Registry : Type 0
Registry = Dict RoomId Room

unfoldable pub new_room : RoomId → Socket → ℕ → Room
new_room id ws now = record {
  room_id = id;
  initiator = some ws;
  joiner = none;
  state = waiting;
  created_at_ms = now;
  last_activity_at_ms = now;
}

unfoldable pub create : Registry → RoomId → Socket → ℕ → Registry
unfolding new_room set
create rooms id ws now = set rooms id (new_room id ws now)

unfoldable pub put_back : Registry → Room → Registry
unfolding set
put_back rooms room = set rooms room.room_id room

pub data RemoveResult : Type 0 where
  half_opened closed : RemoveResult

-- The socket's slots emptied.
unfoldable pub vacate : Room → Socket → Room
vacate room ws = record room {
  initiator = if is_at room.initiator ws then none else room.initiator;
  joiner = if is_at room.joiner ws then none else room.joiner;
}

unfoldable pub is_empty : Room → Bool
is_empty room = not (is_some room.initiator) && not (is_some room.joiner)

-- The room that is left, in its grace period.
unfoldable pub half_opened_room : Room → Socket → ℕ → Room
unfolding vacate
half_opened_room room ws now = record (vacate room ws) {
  state = half_open;
  last_activity_at_ms = now;
}

-- The registry, the room as it was written to, and the result.
unfoldable pub remove : Registry → Room → Socket → ℕ → Registry × Room × RemoveResult
unfolding vacate is_empty half_opened_room put_back delete
remove rooms room ws now =
    let left = vacate room ws in
    let half = half_opened_room room ws now in
    if is_empty left
    then (delete rooms left.room_id, left, closed)
    else (put_back rooms half, half, half_opened)

module _ (rooms : Registry) (room : Room) (ws : Socket) (now : ℕ) where
  pub remove_last :
      is_empty (vacate room ws) ≡ true
      → remove rooms room ws now ≡ (delete rooms room.room_id, vacate room ws, closed)
  unfolding remove
  remove_last e = rw e

  pub remove_other :
      is_empty (vacate room ws) ≡ false
      → remove rooms room ws now ≡ (
        set rooms room.room_id (half_opened_room room ws now),
        half_opened_room room ws now,
        half_opened,
      )
  unfolding remove
  remove_other e = rw e

pub record RoomCounts : Type 0 where
  pub waiting : ℕ
  pub active : ℕ
  pub half_open : ℕ

count_room : RoomState → RoomCounts → RoomCounts
count_room waiting c = record c { waiting = c.waiting + 1 }
count_room paired c = record c { active = c.active + 1 }
count_room half_open c = record c { half_open = c.half_open + 1 }

count_from : RoomCounts → Registry → RoomCounts
unfolding count_room
count_from c [] = c
count_from c ((_, room) ∷ rooms) = count_from (count_room room.state c) rooms

unfoldable pub counts : Registry → RoomCounts
unfolding count_from
counts rooms = count_from (record { waiting = 0; active = 0; half_open = 0 }) rooms

-- Whether the socket is pinged: it is there and `ping` does not throw.
pinged : (Socket → Bool) → Option Socket → ℕ
pinged throws none = 0
pinged throws (some ws) = if throws ws then 0 else 1

-- keepalive.ts; `throws` says which sockets refuse a ping.
unfoldable pub ping_all : (Socket → Bool) → Registry → ℕ
unfolding pinged
ping_all throws [] = 0
ping_all throws ((_, room) ∷ rooms) =
    pinged throws room.initiator + pinged throws room.joiner + ping_all throws rooms
