-- ===== src/Relay/Isolation.antt =====
-- What forwarding asks of the runtime: the frame as it came, to the other socket of the room, and
-- otherwise errors and closes of these two sockets.
use mathlib.Core.List.{append-nil, append_assoc}
use unseen_fyi.Prelude.{
  ℕ, ◌≡◌, ◌⊎◌, inl, inr, refl, sym, ap, ◌∙◌, Bool, true, false, ◌&&◌, not, Option, none, some, List,
  [], ◌++◌, arith, length, leb, ltb, ◌==◌, if◌then◌else◌, All, All-append,
}
use unseen_fyi.Wire.Bytes.{Bytes}
use unseen_fyi.Wire.Codes.{
  ErrorCode, room_not_found, rate_limited, message_too_large, invalid_payload, bad_state, internal,
  msg_handshake, msg_relay,
}
use unseen_fyi.Wire.Frames.{max_wire_bytes, handshake_frame_length}
use unseen_fyi.Wire.Encode.{encode_error}
use unseen_fyi.Room.Registry.{Socket, RoomId, Room, is_half_open, get_peer}
use unseen_fyi.Relay.State.{Server, Deps, Effect, send, close, CloseReason, is_paired}
use unseen_fyi.Relay.Send.{safe_send, close_socket, send_error_and_close, is_dropped}
use unseen_fyi.Relay.Forward.{
  charge, deliver, count_handshake, lose_frame, forward_to, forward_in, find_room, route,
  handle_forward, peer_buffer_cap_bytes, max_handshake_forwards,
}

-- The other socket of the room that the socket's data name.
pub record IsPeer (s : Server) (ws v : Socket) : Type 0 where
  pub room : Room
  pub found : find_room s (s.conns ws).room_id ≡ some room
  pub other : get_peer room ws ≡ some v

-- The sender itself, or its peer.
abbrev pub IsParty : Server → Socket → Socket → Type 0
IsParty s ws v = (v ≡ ws) ⊎ IsPeer s ws v

abbrev pub Forwards : Server → Socket → Bytes → Effect → Type 0
Forwards s ws buf (send v bytes status) =
    (IsPeer s ws v × (bytes ≡ buf)) ⊎ ((c : ErrorCode) × (bytes ≡ encode_error c) × IsParty s ws v)
Forwards s ws buf (close v code reason) = IsParty s ws v

-- What a step added to the effects, each of which satisfies `P`.
pub record Emits (P : Effect → Type 0) (s s' : Server) : Type 0 where
  pub tail : List Effect
  pub added : s'.out ≡ s.out ++ tail
  pub all : All P tail

module _ (P : Effect → Type 0) where
  pub Emits-none : (s s' : Server) → s'.out ≡ s.out → Emits P s s'
  Emits-none s s' e = record { tail = []; added = e ∙ sym (append-nil s.out); all = tt }

  pub Emits-trans : {s t u : Server} → Emits P s t → Emits P t u → Emits P s u
  Emits-trans {s} a b = record {
    tail = a.tail ++ b.tail;
    added = b.added ∙ ap (λ l. l ++ b.tail) a.added ∙ append_assoc s.out a.tail b.tail;
    all = All-append P a.tail b.tail a.all b.all;
  }

  pub Emits-if :
      (s : Server) (b : Bool) (x y : Server)
      → (b ≡ true → Emits P s x)
      → (b ≡ false → Emits P s y)
      → Emits P s (if b then x else y)
  Emits-if s true x y hx hy = hx refl
  Emits-if s false x y hx hy = hy refl

  pub Emits-send :
      (deps : Deps) (v : Socket) (bytes : Bytes) (s : Server)
      → ((status : _) → P (send v bytes status))
      → Emits P s (safe_send deps v bytes s).0
  unfolding safe_send
  Emits-send deps v bytes s h = record { tail = _; added = refl; all = (h _, tt) }

  pub Emits-close :
      (v : Socket) (code : ℕ) (reason : CloseReason) (s : Server)
      → P (close v code reason)
      → Emits P s (close_socket v code reason s)
  unfolding close_socket
  Emits-close v code reason s h = record { tail = _; added = refl; all = (h, tt) }

module _ (s0 : Server) (ws : Socket) (buf : Bytes) where
  Emits-error :
      (deps : Deps) (v : Socket) (c : ErrorCode) (s : Server)
      → IsParty s0 ws v
      → Emits (Forwards s0 ws buf) s (send_error_and_close deps v c s)
  unfolding send_error_and_close
  Emits-error deps v c s h =
      Emits-trans _ (Emits-send _ deps v (encode_error c) s (λ _. inr (c, refl, h)))
        (Emits-close _ v _ _ _ h)

  deliver-Emits :
      (deps : Deps) (type : ℕ) (room : Room) (peer : Socket) (s : Server)
      → IsPeer s0 ws peer
      → Emits (Forwards s0 ws buf) s (deliver deps ws buf type room peer s)
  unfolding deliver
  deliver-Emits deps type room peer s p =
      Emits-if _ s (ltb peer_buffer_cap_bytes (deps.runtime.buffered s.out peer)) _ _
        (λ _.
          Emits-trans _ (Emits-close _ ws _ _ s (inl refl))
            (Emits-trans _ (Emits-close _ peer _ _ _ (inr p)) (Emits-none _ _ _ refl)))
        (λ _.
          Emits-if _ s (is_dropped (safe_send deps peer buf s).1) _ _
            (λ _. Emits-trans _ sent (
              Emits-trans _ (Emits-error deps ws internal _ (inl refl))
                (Emits-trans _ (Emits-error deps peer internal _ (inr p)) (Emits-none _ _ _ refl))))
            (λ _.
              Emits-if _ s (type == msg_relay) _ _ (λ _. Emits-trans _ sent (Emits-none _ _ _ refl))
                (λ _. sent)))
    where
      sent : Emits (Forwards s0 ws buf) s (safe_send deps peer buf s).0
      sent = Emits-send _ deps peer buf s (λ _. inl (p, refl))

  charge-Emits : (deps : Deps) (s : Server) → Emits (Forwards s0 ws buf) s (charge deps ws s).0
  unfolding charge
  charge-Emits deps s = Emits-none _ _ _ refl

  forward_to-Emits :
      (deps : Deps) (type : ℕ) (room : Room) (peer : Option Socket) (s : Server)
      → ((v : Socket) → peer ≡ some v → IsPeer s0 ws v)
      → Emits (Forwards s0 ws buf) s (forward_to deps ws buf type room peer s)
  unfolding forward_to lose_frame count_handshake
  forward_to-Emits deps type room none s p =
      Emits-if _ s (not (is_half_open room.state)) _ _
        (λ _. Emits-error deps ws internal s (inl refl))
        (λ _.
          Emits-if _ s (not (type == msg_handshake)) s _ (λ _. Emits-none _ _ _ refl)
            (λ _.
              Emits-if _ s (charge deps ws s).1 _ _ (λ _. charge-Emits deps s)
                (λ _.
                  Emits-trans _ (charge-Emits deps s)
                    (Emits-error deps ws rate_limited _ (inl refl)))))
  forward_to-Emits deps type room (some v) s p =
      Emits-if _ s (not (type == msg_handshake)) _ _
        (λ _. deliver-Emits deps type room v s (p v refl))
        (λ _.
          Emits-if _ s (leb max_handshake_forwards (s.conns ws).handshake_forwards) _ _
            (λ _. Emits-error deps ws bad_state s (inl refl))
            (λ _.
              Emits-trans _ (Emits-none _ s _ refl) (deliver-Emits deps type room v _ (p v refl))))

  route-Emits :
      (deps : Deps) (type : ℕ) (s : Server)
      → find_room s (s.conns ws).room_id ≡ find_room s0 (s0.conns ws).room_id
      → Emits (Forwards s0 ws buf) s (route deps ws buf type s)
  unfolding route
  route-Emits deps type s e = in_found (find_room s (s.conns ws).room_id) (sym e)
    where
      in_found :
          (found : Option Room)
          → find_room s0 (s0.conns ws).room_id ≡ found
          → Emits (Forwards s0 ws buf) s (forward_in deps ws buf type found s)
      in_found none q = unfold forward_in in Emits-error deps ws room_not_found s (inl refl)
      in_found (some room) q =
          unfold forward_in in
          forward_to-Emits deps type room (get_peer room ws) s
            (λ v p. record { room = room; found = q; other = p })

charge-find_room :
    (deps : Deps) (ws : Socket) (s : Server) (o : Option RoomId)
    → find_room (charge deps ws s).0 o ≡ find_room s o
unfolding charge find_room
charge-find_room deps ws s none = refl
charge-find_room deps ws s (some id) = refl

charge-room_id :
    (deps : Deps) (ws : Socket) (s : Server)
    → ((charge deps ws s).0.conns ws).room_id ≡ (s.conns ws).room_id
unfolding charge
charge-room_id deps ws s = ground arith

-- Whatever a socket sends to be forwarded, and whatever state the relay is in: of all that the
-- relay then sends, each frame is either the bytes that came in, unchanged, to the other socket of
-- the room that the sender's data name, or an error frame to one of these two; and it closes no
-- other socket.
pub handle_forward_isolated :
    (deps : Deps) (ws : Socket) (buf : Bytes) (type : ℕ) (s : Server)
    → Emits (Forwards s ws buf) s (handle_forward deps ws buf type s)
unfolding handle_forward
handle_forward_isolated deps ws buf type s =
    Emits-if _ s (not (is_paired (s.conns ws).state)) _ _ (λ _. refuse bad_state s)
      (λ _.
        Emits-if _ s (ltb max_wire_bytes (length buf)) _ _ (λ _. refuse message_too_large s)
          (λ _.
            Emits-if _ s (type == msg_handshake && not (length buf == handshake_frame_length)) _ _
              (λ _. refuse invalid_payload s)
              (λ _.
                Emits-if _ s (not (type == msg_relay)) _ _
                  (λ _. route-Emits s ws buf deps type s refl)
                  (λ _. Emits-trans _ (charge-Emits s ws buf deps s) (
                    Emits-if _ _ (charge deps ws s).1 _ _
                      (λ _. route-Emits s ws buf deps type _ (
                        ap (find_room _) (charge-room_id deps ws s) ∙ charge-find_room deps ws s _))
                      (λ _. refuse rate_limited _))))))
  where
    refuse :
        (c : ErrorCode) (t : Server)
        → Emits (Forwards s ws buf) t (send_error_and_close deps ws c t)
    refuse c t = Emits-error s ws buf deps ws c t (inl refl)
