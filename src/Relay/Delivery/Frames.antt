-- ===== src/Relay/Delivery/Frames.antt =====
-- How a frame of a paired socket gets through the first tests of the handlers.
use unseen_fyi.Prelude.{ℕ, suc, ◌≡◌, refl, Bool, true, false, not, some, arith, ltb}
use unseen_fyi.Prelude.Eq.{list_eq_instance}
use unseen_fyi.Wire.Bytes.{Bytes}
use unseen_fyi.Room.Registry.{Socket, Room, get_peer}
use unseen_fyi.Relay.State.{Server, Deps}
use unseen_fyi.Relay.Forward.{count_handshake, forward_to, forward_in, find_room, route}

pub route-Leads :
    (deps : Deps) (ws peer : Socket) (buf : Bytes) (type : ℕ) (room : Room) (t : Server)
    → find_room t (t.conns ws).room_id ≡ some room
    → get_peer room ws ≡ some peer
    → route deps ws buf type t ≡ count_handshake deps ws buf type room peer t
unfolding route forward_in forward_to
route-Leads deps ws peer buf type room t found other = rw (found, other) refl

pub is_so : (b : Bool) → not b ≡ true → b ≡ true → ⊥
is_so b e k = ground arith

pub not_empty : (n : ℕ) → ltb (suc n) 1 ≡ false
not_empty n = ground arith
