-- ===== src/Relay/Invariant/Rules.antt =====
-- The steps that keep the rooms as they are, and rules for branches, for `search`.
use unseen_fyi.Prelude.{ℕ, ◌≡◌, refl, Bool, true, false, if◌then◌else◌}
use unseen_fyi.Wire.Bytes.{Bytes}
use unseen_fyi.Wire.Codes.{ErrorCode}
use unseen_fyi.Limit.IpLimiter.{IpAction}
use unseen_fyi.Room.Registry.{Socket}
use unseen_fyi.Prelude.Eq.{list_eq_instance}
use unseen_fyi.Relay.State.{
  Server, Deps, ConnectionData, CloseReason, set_data, inc_capacity_reject, inc_relay,
}
use unseen_fyi.Relay.Send.{safe_send, close_socket, send_error_and_close}
use unseen_fyi.Relay.Hello.{allow, disarm, clear_hello_timer}
use unseen_fyi.Relay.Forward.{charge}
use unseen_fyi.Relay.Invariant.{Inv, Inv-extend}

pub Inv-if :
    (b : Bool) (x y : Server) → (b ≡ true → Inv x) → (b ≡ false → Inv y) → Inv (if b then x else y)
Inv-if true x y hx hy = hx refl
Inv-if false x y hx hy = hy refl

pub safe_send-Inv :
    (deps : Deps) (ws : Socket) (bytes : Bytes) (s : Server)
    → Inv s
    → Inv (safe_send deps ws bytes s).0
unfolding safe_send
safe_send-Inv deps ws bytes s h = record { rooms = h.rooms }

pub close_socket-Inv :
    (ws : Socket) (code : ℕ) (reason : CloseReason) (s : Server)
    → Inv s
    → Inv (close_socket ws code reason s)
unfolding close_socket
close_socket-Inv ws code reason s h = record { rooms = h.rooms }

pub send_error_and_close-Inv :
    (deps : Deps) (ws : Socket) (code : ErrorCode) (s : Server)
    → Inv s
    → Inv (send_error_and_close deps ws code s)
unfolding send_error_and_close
send_error_and_close-Inv deps ws code s h = close_socket-Inv ws _ _ _ (safe_send-Inv deps ws _ s h)

pub inc_relay-Inv : (s : Server) → Inv s → Inv (inc_relay s)
inc_relay-Inv s h = record { rooms = h.rooms }

pub inc_capacity_reject-Inv : (s : Server) → Inv s → Inv (inc_capacity_reject s)
inc_capacity_reject-Inv s h = record { rooms = h.rooms }

pub allow-Inv :
    (deps : Deps) (ws : Socket) (action : IpAction) (s : Server)
    → Inv s
    → Inv (allow deps ws action s).0
unfolding allow
allow-Inv deps ws action s h =
    Inv-if _ _ _ (λ _. record { rooms = h.rooms }) (λ _. record { rooms = h.rooms })

-- Data that differ in other fields only.
abbrev pub SamePlace : (d d' : ConnectionData) → Type 0
SamePlace d d' = (d'.room_id ≡ d.room_id) × (d'.role ≡ d.role) × (d'.state ≡ d.state)

pub Inv-SamePlace :
    (s : Server) (ws : Socket) (d : ConnectionData)
    → SamePlace (s.conns ws) d
    → Inv s
    → Inv (set_data s ws d)
Inv-SamePlace s ws d (r, o, t) h =
    Inv-extend s ws d
      (record {
        same_room = r;
        same_role = o;
        not_pending = λ e. rw t e;
        still_paired = λ e. rw t e;
      })
      h

pub charge-Inv : (deps : Deps) (ws : Socket) (s : Server) → Inv s → Inv (charge deps ws s).0
unfolding charge
charge-Inv deps ws s h = Inv-SamePlace s ws _ (refl, refl, refl) h

disarm-Inv : (ws : Socket) (s : Server) → Inv s → Inv (disarm ws s)
unfolding disarm
disarm-Inv ws s h =
    let h' =
      Inv-SamePlace s ws (record (s.conns ws) { hello_timer = false }) (refl, refl, refl) h in
    record { rooms = h'.rooms }

pub clear_hello_timer-Inv : (ws : Socket) (s : Server) → Inv s → Inv (clear_hello_timer ws s)
unfolding clear_hello_timer
clear_hello_timer-Inv ws s h =
    Inv-if (s.conns ws).hello_timer (disarm ws s) s (λ _. disarm-Inv ws s h) (λ _. h)

pub ruleset keep_rules = (
  Inv-if, safe_send-Inv, close_socket-Inv, send_error_and_close-Inv, inc_relay-Inv,
  inc_capacity_reject-Inv, allow-Inv, charge-Inv, clear_hello_timer-Inv,
)
