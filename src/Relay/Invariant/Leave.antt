-- ===== src/Relay/Invariant/Leave.antt =====
-- A socket that closes leaves its room, and is in no room then.
use unseen_fyi.Prelude.{
  ℕ, ◌≡◌, ◌≢◌, inl, inr, refl, sym, subst, false, Option, none, some, List, [], ◌∷◌, arith, is_at,
  contains, ◌==◌, if◌then◌else◌, Bool-cases,
}
use unseen_fyi.Prelude.Dict.{get, get-set, get-delete}
use unseen_fyi.Prelude.Eq.{list_eq_instance, list_eq_iff}
use unseen_fyi.Room.Registry.{
  Socket, RoomId, Room, remove, vacate, is_empty, half_opened_room, remove_last, remove_other,
  RemoveResult, half_opened, closed,
}
use unseen_fyi.Relay.State.{Server, Deps}
use unseen_fyi.Relay.Send.{safe_send}
use unseen_fyi.Relay.Forward.{find_room}
use unseen_fyi.Relay.Events.{tell_remaining, after_remove, leave_room, handle_close, remove_socket}
use unseen_fyi.Relay.Invariant.{Inv, RoomOk, Inv-delete, Inv-set}
use unseen_fyi.Relay.Invariant.Rules.{Inv-if, safe_send-Inv, clear_hello_timer-Inv}

-- Both slots of the room are free of the socket.
abbrev pub Without : Socket → Room → Type 0
Without ws room = (is_at room.initiator ws ≡ false) × (is_at room.joiner ws ≡ false)

contains-remove_socket :
    (vs : List Socket) (ws w : Socket)
    → contains (remove_socket vs ws) w ≡ (if ws == w then false else contains vs w)
unfolding remove_socket
contains-remove_socket [] ws w = ground arith
contains-remove_socket (v ∷ vs) ws w = ground (arith, contains-remove_socket vs ws w)

abbrev pub Gone : Socket → Server → Type 0
Gone ws s = (j : RoomId) (r : Room) → get s.registry j ≡ some r → Without ws r

-- A socket that no room has can be closed.
pub Inv-remove_socket :
    (s : Server) (ws : Socket)
    → Gone ws s
    → Inv s
    → Inv (record s { alive = remove_socket s.alive ws })
Inv-remove_socket s ws gone h = record {
  rooms = λ j r e.
      let ok = h.rooms j r e in
      let out = gone j r e in
      record {
        keyed = ok.keyed;
        initiator_in =
            λ w p. ground (arith, ok.initiator_in w, contains-remove_socket s.alive ws w);
        joiner_in = λ w p. ground (arith, ok.joiner_in w, contains-remove_socket s.alive ws w);
        shaped = ok.shaped;
        settled_initiator = ok.settled_initiator;
        settled_joiner = ok.settled_joiner;
      };
}

-- Where the data of the socket do not say that it is, it is not.
elsewhere :
    (ws : Socket) (s : Server)
    → Inv s
    → (j : RoomId) (r : Room) → get s.registry j ≡ some r
    → (s.conns ws).room_id ≢ some j
    → Without ws r
elsewhere ws s h j r e n =
    ground (arith, (h.rooms j r e).initiator_in ws, (h.rooms j r e).joiner_in ws)

module _ (ws : Socket) (now : ℕ) (s : Server) (id : RoomId) (room : Room) (h : Inv s)
    (found : get s.registry id ≡ some room) where
  half_opened-RoomOk :
      is_empty (vacate room ws) ≡ false → RoomOk s.conns s.alive id (half_opened_room room ws now)
  unfolding is_empty half_opened_room
  half_opened-RoomOk e =
      let ok = h.rooms id room found in
      record {
        keyed = ok.keyed;
        initiator_in = λ w p. ground (arith, ok.initiator_in w);
        joiner_in = λ w p. ground (arith, ok.joiner_in w);
        shaped = ground arith;
        settled_initiator = λ q w p. cc;
        settled_joiner = λ w p. ground (arith, ok.settled_joiner w);
      }

  remove-Inv : Inv (record s { registry = (remove s.registry room ws now).0 })
  unfolding half_opened_room
  remove-Inv = elim (Bool-cases (is_empty (vacate room ws))) [
    | inl e ↦ rw (remove_last s.registry room ws now e) (Inv-delete s room.room_id h)
    | inr e ↦ rw (remove_other s.registry room ws now e) (
        Inv-set s (half_opened_room room ws now)
          (subst (λ k. RoomOk s.conns s.alive k (half_opened_room room ws now))
            (sym (h.rooms id room found).keyed) (half_opened-RoomOk e))
          h)
  ]

  -- The socket is in no other room, so it is in none.
  remove-Gone :
      (s.conns ws).room_id ≡ some id
      → Gone ws (record s { registry = (remove s.registry room ws now).0 })
  unfolding remove half_opened_room
  remove-Gone at j r e = ground (
    arith,
    get-delete s.registry room.room_id j,
    get-set s.registry room.room_id j (half_opened_room room ws now),
    (h.rooms id room found).keyed,
    list_eq_iff id j,
    elsewhere ws s h j r,
  )

module _ (deps : Deps) (ws : Socket) where
  tell_remaining-Inv : (o : Option Socket) (s : Server) → Inv s → Inv (tell_remaining deps ws o s)
  unfolding tell_remaining
  tell_remaining-Inv none s h = h
  tell_remaining-Inv (some r) s h = Inv-if (r == ws) s _ (λ _. h) (λ _. safe_send-Inv deps r _ s h)

  after_remove-Inv :
      (room : Room) (result : RemoveResult) (s : Server)
      → Inv s
      → Inv (after_remove deps ws room result s)
  unfolding after_remove
  after_remove-Inv room closed s h = h
  after_remove-Inv room half_opened s h = tell_remaining-Inv _ s h

  leave_room-Inv :
      (id : RoomId) (found : Option Room) (s : Server)
      → get s.registry id ≡ found
      → Inv s
      → Inv (leave_room deps ws found s)
  unfolding leave_room
  leave_room-Inv id none s e h = h
  leave_room-Inv id (some room) s e h =
      after_remove-Inv _ _ _ (remove-Inv ws deps.now s id room h e)

  pub after_remove-registry :
      (room : Room) (result : RemoveResult) (s : Server)
      → (after_remove deps ws room result s).registry ≡ s.registry
  unfolding after_remove
  after_remove-registry room closed s = refl
  after_remove-registry room half_opened s = unfold tell_remaining safe_send in ground arith

  leave_room-Gone :
      (id : RoomId) (found : Option Room) (s : Server)
      → get s.registry id ≡ found
      → (s.conns ws).room_id ≡ some id
      → Inv s
      → Gone ws (leave_room deps ws found s)
  unfolding leave_room
  leave_room-Gone id none s e at h = λ j r p. elsewhere ws s h j r p (λ q. ground arith)
  leave_room-Gone id (some room) s e at h =
      λ j r p. remove-Gone ws deps.now s id room h e at j r (rw after_remove-registry at p)

  leave_data-Inv :
      (o : Option RoomId) (s : Server) → Inv s → Inv (leave_room deps ws (find_room s o) s)
  unfolding find_room
  leave_data-Inv none s h = unfold leave_room in h
  leave_data-Inv (some id) s h = leave_room-Inv id (get s.registry id) s refl h

  leave_data-Gone :
      (o : Option RoomId) (s : Server)
      → (s.conns ws).room_id ≡ o
      → Inv s
      → Gone ws (leave_room deps ws (find_room s o) s)
  unfolding find_room
  leave_data-Gone none s e h = unfold leave_room in λ j r p. elsewhere ws s h j r p (λ q. cc)
  leave_data-Gone (some id) s e h = leave_room-Gone id (get s.registry id) s refl e h

  pub handle_close-Inv : (s : Server) → Inv s → Inv (handle_close deps ws s)
  unfolding handle_close
  handle_close-Inv s h = leave_data-Inv _ _ (clear_hello_timer-Inv ws s h)

  pub handle_close-Gone : (s : Server) → Inv s → Gone ws (handle_close deps ws s)
  unfolding handle_close
  handle_close-Gone s h = leave_data-Gone _ _ refl (clear_hello_timer-Inv ws s h)
