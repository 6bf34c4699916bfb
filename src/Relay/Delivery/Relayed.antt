-- ===== src/Relay/Delivery/Relayed.antt =====
-- When a RELAY frame of a socket of a paired room is forwarded.
use unseen_fyi.Prelude.{
  ℕ, ◌≤◌, ◌≡◌, inr, refl, sym, ap, subst, ◌∙◌, Bool, true, false, not, Option, none, some, ◌∷◌,
  arith, length, ltb, if◌then◌else◌,
}
use unseen_fyi.Prelude.Eq.{list_eq_instance}
use unseen_fyi.Wire.Bytes.{Bytes}
use unseen_fyi.Wire.Codes.{msg_relay, rate_limited, message_too_large, invalid_payload}
use unseen_fyi.Wire.Frames.{max_wire_bytes}
use unseen_fyi.Limit.Bucket.{consume_relay_token}
use unseen_fyi.Room.Registry.{Socket, RoomId}
use unseen_fyi.Relay.State.{Server, Deps, is_paired}
use unseen_fyi.Relay.Send.{send_error_and_close}
use unseen_fyi.Relay.Forward.{charge, count_handshake, find_room, route, handle_forward}
use unseen_fyi.Relay.Events.{binary, handle_message}
use unseen_fyi.Relay.Invariant.{Inv}
use unseen_fyi.Relay.Delivery.{
  Mates, Leads, Mates-Leads, Fits, Answered, Answer-if, Answer-iff, refuse, deliver-Answered,
}
use unseen_fyi.Relay.Delivery.Frames.{route-Leads, is_so, not_empty}

-- The tests of a RELAY frame: it is not too long, a token is left, and the peer takes it.
abbrev pub MayRelay : Deps → Socket → Socket → Bytes → Server → Type 0
MayRelay deps ws peer buf s =
    (length buf ≤ max_wire_bytes)
    × ((consume_relay_token (s.conns ws).relay_bucket deps.config.relay_bucket deps.now).1 ≡ true)
    × Fits deps s.out peer buf

charge_keeps :
    (deps : Deps) (ws : Socket) (s : Server)
    → (((charge deps ws s).0.conns ws).room_id ≡ (s.conns ws).room_id)
      × (((charge deps ws s).0.conns ws).handshake_forwards ≡ (s.conns ws).handshake_forwards)
unfolding charge
charge_keeps deps ws s = ground arith

charge-find_room :
    (deps : Deps) (ws : Socket) (s : Server) (o : Option RoomId)
    → find_room (charge deps ws s).0 o ≡ find_room s o
unfolding charge find_room
charge-find_room deps ws s none = refl
charge-find_room deps ws s (some id) = refl

relay_charged :
    (deps : Deps) (ws peer : Socket) (buf : Bytes) (s : Server) (l : Leads s ws peer)
    → Answered
        (Fits deps s.out peer buf)
        deps
        ws
        peer
        buf
        s.out
        s.counters.relays_total
        1
        (s.conns ws).handshake_forwards
        (route deps ws buf msg_relay (charge deps ws s).0)
unfolding charge count_handshake
relay_charged deps ws peer buf s l =
    let (same, kept) = charge_keeps deps ws s in
    let t : Server = (charge deps ws s).0 in
    let found : find_room t (t.conns ws).room_id ≡ some l.room =
      ap (find_room t) same ∙ charge-find_room deps ws s (s.conns ws).room_id ∙ l.found in
    subst
      (Answered (Fits deps s.out peer buf) deps ws peer buf s.out s.counters.relays_total 1
        (s.conns ws).handshake_forwards)
      (sym (route-Leads deps ws peer buf msg_relay l.room t found l.other))
      (subst
        (λ n.
          Answered (Fits deps s.out peer buf) deps ws peer buf s.out s.counters.relays_total 1 n
            (count_handshake deps ws buf msg_relay l.room peer t))
        kept (deliver-Answered deps ws peer buf msg_relay l.room t))

handle_forward-relay :
    (deps : Deps) (ws peer : Socket) (buf : Bytes) (s : Server)
    → Leads s ws peer
    → Answered
        (MayRelay deps ws peer buf s)
        deps
        ws
        peer
        buf
        s.out
        s.counters.relays_total
        1
        (s.conns ws).handshake_forwards
        (handle_forward deps ws buf msg_relay s)
unfolding handle_forward charge
handle_forward-relay deps ws peer buf s l =
    let May : Type 0 = MayRelay deps ws peer buf s in
    let allowed : Bool =
      (consume_relay_token (s.conns ws).relay_bucket deps.config.relay_bucket deps.now).1 in
    let step =
      Answer-if deps ws peer buf s.out s.counters.relays_total 1 (s.conns ws).handshake_forwards
        May in
    step (not (is_paired (s.conns ws).state)) _ _ (λ e. absurd (is_so _ e l.paired_state))
      (λ _.
        step (ltb max_wire_bytes (length buf)) _ _
          (λ long.
            inr ((λ (le, _, _). too_long (length buf) long le), refuse deps ws message_too_large s))
          (λ short.
            step allowed _ _
              (λ paid.
                Answer-iff deps ws peer buf s.out s.counters.relays_total 1
                  (s.conns ws).handshake_forwards (Fits deps s.out peer buf) May
                  (λ fits. (fits_wire (length buf) short, paid, fits)) (λ (_, _, fits). fits) _
                  (relay_charged deps ws peer buf s l))
              (λ none_left. inr (
                (λ (_, paid, _). neither allowed none_left paid),
                refuse deps ws rate_limited (charge deps ws s).0,
              ))))
  where
    too_long : (n : ℕ) → ltb max_wire_bytes n ≡ true → n ≤ max_wire_bytes → ⊥
    too_long n e le = ground arith

    fits_wire : (n : ℕ) → ltb max_wire_bytes n ≡ false → n ≤ max_wire_bytes
    fits_wire n e = ground arith

    neither : (b : Bool) → b ≡ false → b ≡ true → ⊥
    neither b e k = ground arith

-- When a socket of a paired room sends bytes that start as a RELAY frame, in any state that satisfies
-- the relay's invariant: exactly if they are not too long, a token is left, the peer's buffer is not
-- over its cap and the runtime takes them, they go to the other socket of the room as they came,
-- nothing else is sent or closed, and they are counted; else the sender is closed, and nothing is
-- counted. So no RELAY frame is lost in silence.
pub handle_message-relay :
    (deps : Deps) (ws peer : Socket) (rest : Bytes) (s : Server)
    → Inv s
    → Mates s ws peer
    → Answered
        (MayRelay deps ws peer (msg_relay ∷ rest) s)
        deps
        ws
        peer
        (msg_relay ∷ rest)
        s.out
        s.counters.relays_total
        1
        (s.conns ws).handshake_forwards
        (handle_message deps ws (binary (msg_relay ∷ rest)) s)
unfolding handle_message
handle_message-relay deps ws peer rest s h m =
    subst
      (λ b.
        Answered (MayRelay deps ws peer (msg_relay ∷ rest) s) deps ws peer (msg_relay ∷ rest) s.out
          s.counters.relays_total 1 (s.conns ws).handshake_forwards
          (if b
            then send_error_and_close deps ws invalid_payload s
            else handle_forward deps ws (msg_relay ∷ rest) msg_relay s))
      (sym (not_empty (length rest)))
      (handle_forward-relay deps ws peer (msg_relay ∷ rest) s (Mates-Leads s ws peer h m))
