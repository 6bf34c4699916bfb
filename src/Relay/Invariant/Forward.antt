-- ===== src/Relay/Invariant/Forward.antt =====
-- Forwarding a frame keeps the invariant of the rooms.
use unseen_fyi.Prelude.{ℕ, refl, ◌&&◌, not, Option, none, some, length, leb, ltb, ◌==◌}
use unseen_fyi.Prelude.Eq.{list_eq_instance}
use unseen_fyi.Wire.Bytes.{Bytes}
use unseen_fyi.Wire.Codes.{
  room_not_found, rate_limited, message_too_large, invalid_payload, bad_state, internal,
  msg_handshake, msg_relay,
}
use unseen_fyi.Wire.Frames.{max_wire_bytes, handshake_frame_length}
use unseen_fyi.Room.Registry.{Socket, Room, is_half_open, get_peer}
use unseen_fyi.Relay.State.{Server, Deps, is_paired}
use unseen_fyi.Relay.Send.{safe_send, is_dropped}
use unseen_fyi.Relay.Forward.{
  charge, deliver, count_handshake, lose_frame, forward_to, forward_in, find_room, route,
  handle_forward,
}
use unseen_fyi.Relay.Invariant.{Inv, Inv-delete}
use unseen_fyi.Relay.Invariant.Rules.{
  Inv-if, safe_send-Inv, close_socket-Inv, send_error_and_close-Inv, charge-Inv, inc_relay-Inv,
  Inv-SamePlace,
}

module _ (deps : Deps) (ws : Socket) where
  deliver-Inv :
      (buf : Bytes) (type : ℕ) (room : Room) (peer : Socket) (s : Server)
      → Inv s
      → Inv (deliver deps ws buf type room peer s)
  unfolding deliver
  deliver-Inv buf type room peer s h =
      Inv-if (ltb _ (deps.runtime.buffered s.out peer)) _ _
        (λ _. Inv-delete _ room.room_id (close_socket-Inv peer _ _ _ (close_socket-Inv ws _ _ _ h)))
        (λ _.
          Inv-if (is_dropped (safe_send deps peer buf s).1) _ _
            (λ _.
              Inv-delete _ room.room_id (
                send_error_and_close-Inv deps peer _ _ (send_error_and_close-Inv deps ws _ _ sent)))
            (λ _. Inv-if (type == msg_relay) _ _ (λ _. inc_relay-Inv _ sent) (λ _. sent)))
    where
      sent : Inv (safe_send deps peer buf s).0
      sent = safe_send-Inv deps peer buf s h

  forward_to-Inv :
      (buf : Bytes) (type : ℕ) (room : Room) (peer : Option Socket) (s : Server)
      → Inv s
      → Inv (forward_to deps ws buf type room peer s)
  unfolding forward_to lose_frame count_handshake
  forward_to-Inv buf type room none s h =
      Inv-if (not (is_half_open room.state)) _ _
        (λ _. send_error_and_close-Inv deps ws internal s h)
        (λ _.
          Inv-if (not (type == msg_handshake)) s _ (λ _. h)
            (λ _.
              Inv-if (charge deps ws s).1 _ _ (λ _. charge-Inv deps ws s h)
                (λ _. send_error_and_close-Inv deps ws rate_limited _ (charge-Inv deps ws s h))))
  forward_to-Inv buf type room (some peer) s h =
      Inv-if (not (type == msg_handshake)) _ _ (λ _. deliver-Inv buf type room peer s h)
        (λ _.
          Inv-if (leb _ (s.conns ws).handshake_forwards) _ _
            (λ _. send_error_and_close-Inv deps ws bad_state s h)
            (λ _. deliver-Inv buf type room peer _ (Inv-SamePlace s ws _ (refl, refl, refl) h)))

  route-Inv : (buf : Bytes) (type : ℕ) (s : Server) → Inv s → Inv (route deps ws buf type s)
  unfolding route
  route-Inv buf type s h = in_found (find_room s (s.conns ws).room_id)
    where
      in_found : (found : Option Room) → Inv (forward_in deps ws buf type found s)
      in_found none = unfold forward_in in send_error_and_close-Inv deps ws room_not_found s h
      in_found (some room) =
          unfold forward_in in forward_to-Inv buf type room (get_peer room ws) s h

  pub handle_forward-Inv :
      (buf : Bytes) (type : ℕ) (s : Server) → Inv s → Inv (handle_forward deps ws buf type s)
  unfolding handle_forward
  handle_forward-Inv buf type s h =
      Inv-if (not (is_paired (s.conns ws).state)) _ _
        (λ _. send_error_and_close-Inv deps ws bad_state s h)
        (λ _.
          Inv-if (ltb max_wire_bytes (length buf)) _ _
            (λ _. send_error_and_close-Inv deps ws message_too_large s h)
            (λ _.
              Inv-if (type == msg_handshake && not (length buf == handshake_frame_length)) _ _
                (λ _. send_error_and_close-Inv deps ws invalid_payload s h)
                (λ _.
                  Inv-if (not (type == msg_relay)) _ _ (λ _. route-Inv buf type s h)
                    (λ _.
                      Inv-if (charge deps ws s).1 _ _
                        (λ _. route-Inv buf type _ (charge-Inv deps ws s h))
                        (λ _.
                          send_error_and_close-Inv deps ws rate_limited _
                            (charge-Inv deps ws s h))))))
