-- ===== src/Relay/Delivery/Handshakes.antt =====
-- When a HANDSHAKE frame of a socket of a paired room is forwarded.
use unseen_fyi.Prelude.{
  ℕ, ◌+◌, ◌≡◌, inr, sym, subst, true, false, not, ◌∷◌, arith, length, leb, ltb, ◌==◌, if◌then◌else◌,
}
use unseen_fyi.Prelude.Eq.{list_eq_instance}
use unseen_fyi.Wire.Bytes.{Bytes}
use unseen_fyi.Wire.Codes.{msg_handshake, message_too_large, invalid_payload, bad_state}
use unseen_fyi.Wire.Frames.{max_wire_bytes, handshake_frame_length}
use unseen_fyi.Room.Registry.{Socket, Room}
use unseen_fyi.Relay.State.{Server, Deps, is_paired, set_data}
use unseen_fyi.Relay.Send.{send_error_and_close}
use unseen_fyi.Relay.Forward.{deliver, count_handshake, handle_forward, max_handshake_forwards}
use unseen_fyi.Relay.Events.{binary, handle_message}
use unseen_fyi.Relay.Invariant.{Inv}
use unseen_fyi.Relay.Delivery.{
  Mates, Leads, Mates-Leads, Fits, Answered, Answer-if, Answer-iff, refuse, deliver-Answered,
}
use unseen_fyi.Relay.Delivery.Frames.{route-Leads, is_so, not_empty}

-- The tests of a HANDSHAKE: it has the one length, the sender has forwarded none, and the peer takes it.
abbrev pub MayShake : Deps → Socket → Socket → Bytes → Server → Type 0
MayShake deps ws peer buf s =
    (length buf ≡ handshake_frame_length)
    × ((s.conns ws).handshake_forwards ≡ 0)
    × Fits deps s.out peer buf

shake_counted :
    (deps : Deps) (ws peer : Socket) (buf : Bytes) (room : Room) (s : Server)
    → length buf ≡ handshake_frame_length
    → Answered
        (MayShake deps ws peer buf s)
        deps
        ws
        peer
        buf
        s.out
        s.counters.relays_total
        0
        1
        (count_handshake deps ws buf msg_handshake room peer s)
unfolding count_handshake
shake_counted deps ws peer buf room s one =
    let May : Type 0 = MayShake deps ws peer buf s in
    let again : ℕ = (s.conns ws).handshake_forwards in
    let t : Server = set_data s ws (record (s.conns ws) { handshake_forwards = again + 1 }) in
    Answer-if deps ws peer buf s.out s.counters.relays_total 0 1 May
      (leb max_handshake_forwards again) _ _
      (λ spent. inr ((λ (_, zero, _). none_before again spent zero), refuse deps ws bad_state s))
      (λ first.
        let now : (t.conns ws).handshake_forwards ≡ 1 = ground (arith, is_first again first) in
        Answer-iff deps ws peer buf s.out s.counters.relays_total 0 1 (Fits deps s.out peer buf) May
          (λ fits. (one, is_first again first, fits)) (λ (_, _, fits). fits) _
          (subst
            (λ n.
              Answered (Fits deps s.out peer buf) deps ws peer buf s.out s.counters.relays_total 0 n
                (deliver deps ws buf msg_handshake room peer t))
            now (deliver-Answered deps ws peer buf msg_handshake room t)))
  where
    none_before : (n : ℕ) → leb max_handshake_forwards n ≡ true → n ≡ 0 → ⊥
    none_before n e k = ground arith

    is_first : (n : ℕ) → leb max_handshake_forwards n ≡ false → n ≡ 0
    is_first n e = ground arith

handle_forward-handshake :
    (deps : Deps) (ws peer : Socket) (buf : Bytes) (s : Server)
    → Leads s ws peer
    → Answered
        (MayShake deps ws peer buf s)
        deps
        ws
        peer
        buf
        s.out
        s.counters.relays_total
        0
        1
        (handle_forward deps ws buf msg_handshake s)
unfolding handle_forward
handle_forward-handshake deps ws peer buf s l =
    let May : Type 0 = MayShake deps ws peer buf s in
    let step = Answer-if deps ws peer buf s.out s.counters.relays_total 0 1 May in
    step (not (is_paired (s.conns ws).state)) _ _ (λ e. absurd (is_so _ e l.paired_state))
      (λ _.
        step (ltb max_wire_bytes (length buf)) _ _
          (λ long.
            inr
              ((λ (one, _, _). too_long (length buf) long one), refuse deps ws message_too_large s))
          (λ short.
            step (not (length buf == handshake_frame_length)) _ _
              (λ other. inr (
                (λ (one, _, _). wrong_length (length buf) other one),
                refuse deps ws invalid_payload s,
              ))
              (λ right.
                subst (Answered May deps ws peer buf s.out s.counters.relays_total 0 1)
                  (sym (route-Leads deps ws peer buf msg_handshake l.room s l.found l.other))
                  (shake_counted deps ws peer buf l.room s (right_length (length buf) right)))))
  where
    too_long : (n : ℕ) → ltb max_wire_bytes n ≡ true → n ≡ handshake_frame_length → ⊥
    too_long n e k = ground arith

    wrong_length :
        (n : ℕ) → not (n == handshake_frame_length) ≡ true → n ≡ handshake_frame_length → ⊥
    wrong_length n e k = ground arith

    right_length : (n : ℕ) → not (n == handshake_frame_length) ≡ false → n ≡ handshake_frame_length
    right_length n e = ground arith

-- When a socket of a paired room sends bytes that start as a HANDSHAKE frame, in any state that
-- satisfies the relay's invariant: exactly if they have the length of one, the socket has forwarded
-- none before, the peer's buffer is not over its cap and the runtime takes them, they go to the other
-- socket of the room as they came, nothing else is sent or closed, and the socket has then forwarded
-- one; else the sender is closed. Relayed frames are not counted.
pub handle_message-handshake :
    (deps : Deps) (ws peer : Socket) (rest : Bytes) (s : Server)
    → Inv s
    → Mates s ws peer
    → Answered
        (MayShake deps ws peer (msg_handshake ∷ rest) s)
        deps
        ws
        peer
        (msg_handshake ∷ rest)
        s.out
        s.counters.relays_total
        0
        1
        (handle_message deps ws (binary (msg_handshake ∷ rest)) s)
unfolding handle_message
handle_message-handshake deps ws peer rest s h m =
    subst
      (λ b.
        Answered (MayShake deps ws peer (msg_handshake ∷ rest) s) deps ws peer
          (msg_handshake ∷ rest) s.out s.counters.relays_total 0 1
          (if b
            then send_error_and_close deps ws invalid_payload s
            else handle_forward deps ws (msg_handshake ∷ rest) msg_handshake s))
      (sym (not_empty (length rest)))
      (handle_forward-handshake deps ws peer (msg_handshake ∷ rest) s (Mates-Leads s ws peer h m))
