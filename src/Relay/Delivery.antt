-- ===== src/Relay/Delivery.antt =====
-- What becomes of a frame that a socket of a paired room sends to be forwarded.
pub mod Frames
pub mod Relayed
pub mod Handshakes
use mathlib.Core.List.{append_assoc}
use unseen_fyi.Prelude.{
  ℕ, ◌+◌, ◌≤◌, ◌≡◌, ◌≢◌, ◌⊎◌, inl, inr, refl, sym, ap, ◌∙◌, Bool, true, false, not, Option, none,
  some, List, [], ◌∷◌, ◌++◌, arith, ltb, ◌==◌, if◌then◌else◌,
}
use unseen_fyi.Prelude.Dict.{get}
use unseen_fyi.Prelude.Eq.{list_eq_instance}
use unseen_fyi.Wire.Bytes.{Bytes}
use unseen_fyi.Wire.Codes.{ErrorCode, initiator, joiner, msg_relay}
use unseen_fyi.Room.Registry.{Socket, RoomId, Room, get_peer}
use unseen_fyi.Relay.State.{Server, Deps, Effect, send, close, CloseReason, SendStatus, is_paired}
use unseen_fyi.Relay.Send.{safe_send, classify, is_dropped, close_socket, send_error_and_close}
use unseen_fyi.Relay.Forward.{deliver, find_room, peer_buffer_cap_bytes}
use unseen_fyi.Relay.Invariant.{Occupies, is_full, RoomOk, Inv}

-- The two sockets are in the two slots of a paired room of the registry.
pub record Mates (s : Server) (ws peer : Socket) : Type 0 where
  pub id : RoomId
  pub room : Room
  pub stored : get s.registry id ≡ some room
  pub full : is_full room.state ≡ true
  pub slots :
      ((room.initiator ≡ some ws) × (room.joiner ≡ some peer))
      ⊎ ((room.joiner ≡ some ws) × (room.initiator ≡ some peer))

-- What forwarding reads: the sender is paired, and its data lead to the peer.
pub record Leads (s : Server) (ws peer : Socket) : Type 0 where
  pub paired_state : is_paired (s.conns ws).state ≡ true
  pub room : Room
  pub found : find_room s (s.conns ws).room_id ≡ some room
  pub other : get_peer room ws ≡ some peer

roles_differ :
    (s : Server) (id : RoomId) (v w : Socket)
    → Occupies s.conns s.alive id initiator v
    → Occupies s.conns s.alive id joiner w
    → v ≢ w
roles_differ s id v w (_, h, _, _) (_, k, _, _) e =
    absurd (apart (sym h ∙ ap (λ u. (s.conns u).role) e ∙ k))
  where
    apart : Option.some initiator ≡ some joiner → ⊥
    apart e = cc e

initiator-get_peer :
    (room : Room) (ws peer : Socket)
    → room.initiator ≡ some ws
    → room.joiner ≡ some peer
    → get_peer room ws ≡ some peer
unfolding get_peer
initiator-get_peer room ws peer e k = ground arith

joiner-get_peer :
    (room : Room) (ws peer : Socket)
    → room.joiner ≡ some ws
    → room.initiator ≡ some peer
    → peer ≢ ws
    → get_peer room ws ≡ some peer
unfolding get_peer
joiner-get_peer room ws peer e k ne = ground arith

pub Mates-Leads : (s : Server) (ws peer : Socket) → Inv s → Mates s ws peer → Leads s ws peer
unfolding find_room
Mates-Leads s ws peer h m =
    let ok : RoomOk s.conns s.alive m.id m.room = h.rooms m.id m.room m.stored in
    elim m.slots [
      | inl (mine, theirs) ↦
          let (at, _, _, _) = ok.initiator_in ws mine in
          record {
            paired_state = ok.settled_initiator m.full ws mine;
            room = m.room;
            found = ap (find_room s) at ∙ m.stored;
            other = initiator-get_peer m.room ws peer mine theirs;
          }
      | inr (mine, theirs) ↦
          let (at, _, _, _) = ok.joiner_in ws mine in
          record {
            paired_state = ok.settled_joiner ws mine;
            room = m.room;
            found = ap (find_room s) at ∙ m.stored;
            other =
                joiner-get_peer m.room ws peer mine theirs (
                  roles_differ s m.id peer ws (ok.initiator_in peer theirs) (ok.joiner_in ws mine));
          }
    ]

-- The peer's buffer is not over its cap, and the runtime takes the frame.
abbrev pub Fits : Deps → List Effect → Socket → Bytes → Type 0
Fits deps out peer buf =
    (deps.runtime.buffered out peer ≤ peer_buffer_cap_bytes)
    × (is_dropped (classify (deps.runtime.returned out peer buf)) ≡ false)

-- The only new effect is that the frame went to the peer as it came; `relayed` is by how much the
-- count of relayed frames grew, and `forwards` the handshakes that the sender has forwarded.
abbrev pub Delivered : Deps → Socket → Socket → Bytes → List Effect → ℕ → ℕ → Server → Type 0
Delivered deps ws peer buf out relayed forwards after =
    (after.out ≡ out ++ send peer buf (classify (deps.runtime.returned out peer buf)) ∷ [])
    × (after.counters.relays_total ≡ relayed)
    × ((after.conns ws).handshake_forwards ≡ forwards)

-- The sender was closed, and no relayed frame was counted.
pub record Refused (ws : Socket) (out : List Effect) (total : ℕ) (after : Server) : Type 0 where
  pub earlier : List Effect
  pub later : List Effect
  pub code : ℕ
  pub reason : CloseReason
  pub shut : after.out ≡ out ++ (earlier ++ close ws code reason ∷ later)
  pub uncounted : after.counters.relays_total ≡ total

-- The frame is delivered exactly if `May`, else the sender is closed: none is lost in silence.
abbrev pub Answered :
    Type 0 → Deps → Socket → Socket → Bytes → List Effect → ℕ → ℕ → ℕ → Server → Type 0
Answered May deps ws peer buf out total gain forwards after =
    (May × Delivered deps ws peer buf out (total + gain) forwards after)
    ⊎ ((May → ⊥) × Refused ws out total after)

module _ (deps : Deps) (ws peer : Socket) (buf : Bytes) (out : List Effect)
    (total gain forwards : ℕ) where
  abbrev pub Answer : Type 0 → Server → Type 0
  Answer May after = Answered May deps ws peer buf out total gain forwards after

  pub Answer-if :
      (May : Type 0) (b : Bool) (x y : Server)
      → (b ≡ true → Answer May x)
      → (b ≡ false → Answer May y)
      → Answer May (if b then x else y)
  Answer-if May true x y h k = h refl
  Answer-if May false x y h k = k refl

  pub Answer-iff :
      (May May' : Type 0)
      → (May → May')
      → (May' → May)
      → (s : Server) → Answer May s
      → Answer May' s
  Answer-iff May May' f g s (inl (m, d)) = inl (f m, d)
  Answer-iff May May' f g s (inr (n, r)) = inr ((λ m. n (g m)), r)

pub refuse :
    (deps : Deps) (ws : Socket) (c : ErrorCode) (s : Server)
    → Refused ws s.out s.counters.relays_total (send_error_and_close deps ws c s)
unfolding send_error_and_close safe_send close_socket
refuse deps ws c s = record {
  earlier = _ ∷ [];
  later = [];
  code = _;
  reason = _;
  shut = append_assoc s.out _ _;
  uncounted = refl;
}

append_five :
    {A : Type 0} (o : List A) (a b c d e : A)
    → ((((o ++ a ∷ []) ++ b ∷ []) ++ c ∷ []) ++ d ∷ []) ++ e ∷ [] ≡ o ++ (a ∷ b ∷ c ∷ d ∷ e ∷ [])
append_five o a b c d e =
    ap (λ l. ((l ++ c ∷ []) ++ d ∷ []) ++ e ∷ []) (append_assoc o (a ∷ []) (b ∷ []))
    ∙ ap (λ l. (l ++ d ∷ []) ++ e ∷ []) (append_assoc o (a ∷ b ∷ []) (c ∷ []))
    ∙ ap (λ l. l ++ e ∷ []) (append_assoc o (a ∷ b ∷ c ∷ []) (d ∷ []))
    ∙ append_assoc o (a ∷ b ∷ c ∷ d ∷ []) (e ∷ [])

-- A relayed frame is counted, a handshake is not.
abbrev pub gain_of : ℕ → ℕ
gain_of type = if type == msg_relay then 1 else 0

gain_counted : (type : ℕ) → (type == msg_relay) ≡ true → (n : ℕ) → n + 1 ≡ n + gain_of type
gain_counted type e n = rw e refl

gain_uncounted : (type : ℕ) → (type == msg_relay) ≡ false → (n : ℕ) → n ≡ n + gain_of type
gain_uncounted type e n = rw e (omega arith)

pub deliver-Answered :
    (deps : Deps) (ws peer : Socket) (buf : Bytes) (type : ℕ) (room : Room) (s : Server)
    → Answered
        (Fits deps s.out peer buf)
        deps
        ws
        peer
        buf
        s.out
        s.counters.relays_total
        (gain_of type)
        (s.conns ws).handshake_forwards
        (deliver deps ws buf type room peer s)
unfolding deliver safe_send close_socket send_error_and_close
deliver-Answered deps ws peer buf type room s =
    let May : Type 0 = Fits deps s.out peer buf in
    let status : SendStatus = classify (deps.runtime.returned s.out peer buf) in
    Answer-if deps ws peer buf s.out s.counters.relays_total (gain_of type)
      (s.conns ws).handshake_forwards May
      (ltb peer_buffer_cap_bytes (deps.runtime.buffered s.out peer)) _ _
      (λ over. inr (
        (λ (le, _). over_cap (deps.runtime.buffered s.out peer) over le),
        record {
          earlier = [];
          later = _ ∷ [];
          code = _;
          reason = _;
          shut = append_assoc s.out _ _;
          uncounted = refl;
        },
      ))
      (λ room_left.
        Answer-if deps ws peer buf s.out s.counters.relays_total (gain_of type)
          (s.conns ws).handshake_forwards May (is_dropped status) _ _
          (λ lost. inr (
            (λ (_, kept). absurd (both (is_dropped status) lost kept)),
            record {
              earlier = _ ∷ _ ∷ [];
              later = _ ∷ _ ∷ [];
              code = _;
              reason = _;
              shut = append_five s.out _ _ _ _ _;
              uncounted = refl;
            },
          ))
          (λ kept.
            let may : May = (within (deps.runtime.buffered s.out peer) room_left, kept) in
            Answer-if deps ws peer buf s.out s.counters.relays_total (gain_of type)
              (s.conns ws).handshake_forwards May (type == msg_relay) _ _
              (λ e. inl (may, (refl, gain_counted type e _, refl)))
              (λ e. inl (may, (refl, gain_uncounted type e _, refl)))))
  where
    over_cap : (n : ℕ) → ltb peer_buffer_cap_bytes n ≡ true → n ≤ peer_buffer_cap_bytes → ⊥
    over_cap n e le = ground arith

    within : (n : ℕ) → ltb peer_buffer_cap_bytes n ≡ false → n ≤ peer_buffer_cap_bytes
    within n e = ground arith

    both : (b : Bool) → b ≡ true → b ≡ false → ⊥
    both b e k = ground arith
