-- ===== src/Channel/Replay.antt =====
-- Which frames a client accepts from a relay that may replay, reorder, drop and invent.
use unseen_fyi.Prelude.{
  ℕ, ◌≤◌, ◌<◌, ◌≡◌, refl, subst, sym, ◌⊎◌, inl, inr, Option, List, [], ◌∷◌, ◌++◌, arith,
}
use unseen_fyi.Prelude.Result.{Result, ok, err}
use unseen_fyi.Wire.Bytes.{Bytes}
use unseen_fyi.Wire.Codes.{Role, relay_kind_msg, relay_kind_chunk}
use unseen_fyi.Channel.Nonce.{NonceFields, parse_nonce}
use unseen_fyi.Channel.Send.{Aead, Persist}
use unseen_fyi.Channel.Counters.{Increases, Increases-from}
use unseen_fyi.Channel.Receive.{
  CounterMode, strict, first_gap_allowed, RelayFrameResult, accepted, invalid_direction,
  invalid_reserved, counter_gap, decrypt_failed, ReceiveResult, received, is_gap, opened_frame,
  decrypt_checked, validate_and_decrypt_frame, chunk_result, decrypt_chunk_frame, envelope_result,
  incoming_result, decrypt_incoming,
}

-- A RELAY frame that arrives, with the mode in which it is read.
pub data Arrival : Type 0 where
  message chunk : Bytes → Bytes → CounterMode → Arrival

chunk_counter : Result RelayFrameResult → List ℕ
chunk_counter (ok (accepted plaintext counter)) = counter ∷ []
chunk_counter _ = []

message_counter : {Envelope : Type 0} → Result (ReceiveResult Envelope) → List ℕ
message_counter (ok (received envelope counter)) = counter ∷ []
message_counter _ = []

module _ {Key Envelope : Type 0} (aead : Aead Key) (decode_envelope : Bytes → Option Envelope)
    (persist : Persist) (role : Role) (key : Key) where
  arrive : ℕ → Arrival → ℕ × List ℕ
  unfolding chunk_counter message_counter
  arrive counter_recv (message nonce ciphertext mode) =
      let (next, result) =
        decrypt_incoming aead decode_envelope persist counter_recv role key nonce ciphertext mode in
      (next, message_counter result)
  arrive counter_recv (chunk nonce ciphertext mode) =
      let (next, result) = decrypt_chunk_frame aead counter_recv role key nonce ciphertext mode in
      (next, chunk_counter result)

  -- `counterRecv` after these frames, and the counters of those that were accepted.
  unfoldable pub arrive_all : ℕ → List Arrival → ℕ × List ℕ
  unfolding arrive
  arrive_all counter_recv [] = (counter_recv, [])
  arrive_all counter_recv (a ∷ arrivals) =
      let (next, counters) = arrive counter_recv a in
      let (last, later) = arrive_all next arrivals in (last, counters ++ later)

  checked_above :
      (counter_recv kind : ℕ) (nonce ciphertext : Bytes) (mode : CounterMode)
      (fields : Result NonceFields) (plaintext : Bytes) (counter : ℕ)
      → decrypt_checked aead counter_recv role key kind nonce ciphertext mode fields
        ≡ ok (accepted plaintext counter)
      → counter_recv < counter
  unfolding decrypt_checked is_gap opened_frame
  checked_above counter_recv kind nonce ciphertext mode (err e) plaintext counter h = absurd (cc h)
  checked_above counter_recv kind nonce ciphertext strict (ok fields) plaintext counter h =
      ground arith
  checked_above counter_recv kind nonce ciphertext first_gap_allowed (ok fields) plaintext counter
        h =
      ground arith

  -- What an arrival does to the counter and what it adds.
  abbrev Advances : ℕ → ℕ × List ℕ → Type 0
  Advances counter_recv (next, counters) =
      ((counters ≡ []) × (counter_recv ≤ next)) ⊎ ((counters ≡ next ∷ []) × (counter_recv < next))

  abbrev Above : ℕ → Result RelayFrameResult → Type 0
  Above counter_recv frame =
      (plaintext : Bytes) (counter : ℕ)
      → frame ≡ ok (accepted plaintext counter)
      → counter_recv < counter

  message_step :
      (counter_recv : ℕ) (frame : Result RelayFrameResult)
      → Above counter_recv frame
      → let (next, result) = incoming_result aead decode_envelope persist counter_recv frame in
        Advances counter_recv (next, message_counter result)
  unfolding incoming_result envelope_result message_counter
  message_step counter_recv (err e) h = inl (refl, omega arith)
  message_step counter_recv (ok (accepted plaintext counter)) h =
      let above = h plaintext counter refl in ground arith
  message_step counter_recv (ok invalid_direction) h = inl (refl, omega arith)
  message_step counter_recv (ok invalid_reserved) h = inl (refl, omega arith)
  message_step counter_recv (ok counter_gap) h = inl (refl, omega arith)
  message_step counter_recv (ok decrypt_failed) h = inl (refl, omega arith)

  chunk_step :
      (counter_recv : ℕ) (frame : Result RelayFrameResult)
      → Above counter_recv frame
      → let (next, result) = chunk_result aead counter_recv frame in
        Advances counter_recv (next, chunk_counter result)
  unfolding chunk_result chunk_counter
  chunk_step counter_recv (err e) h = inl (refl, omega arith)
  chunk_step counter_recv (ok (accepted plaintext counter)) h = inr (refl, h plaintext counter refl)
  chunk_step counter_recv (ok invalid_direction) h = inl (refl, omega arith)
  chunk_step counter_recv (ok invalid_reserved) h = inl (refl, omega arith)
  chunk_step counter_recv (ok counter_gap) h = inl (refl, omega arith)
  chunk_step counter_recv (ok decrypt_failed) h = inl (refl, omega arith)

  arrive_step : (counter_recv : ℕ) (a : Arrival) → Advances counter_recv (arrive counter_recv a)
  unfolding arrive decrypt_incoming decrypt_chunk_frame validate_and_decrypt_frame
  arrive_step counter_recv (message nonce ciphertext mode) =
      message_step counter_recv _
        (checked_above counter_recv relay_kind_msg nonce ciphertext mode (parse_nonce nonce))
  arrive_step counter_recv (chunk nonce ciphertext mode) =
      chunk_step counter_recv _
        (checked_above counter_recv relay_kind_chunk nonce ciphertext mode (parse_nonce nonce))

  add_later :
      (counter_recv next : ℕ) (counters later : List ℕ)
      → Advances counter_recv (next, counters)
      → Increases next later
      → Increases counter_recv (counters ++ later)
  add_later counter_recv next [] later h k = Increases-from counter_recv next later (ground arith) k
  add_later counter_recv next (c ∷ counters) later (inl (e, g)) k = absurd (cc e)
  add_later counter_recv next (c ∷ counters) later (inr (e, g)) k =
      subst (λ l. Increases counter_recv (l ++ later)) (sym e) (g, k)

  -- Whatever frames arrive, in whatever order and in whichever mode each is read: the counters of
  -- the messages and chunks that are accepted are strictly increasing and above the counter before
  -- them. So no counter is accepted twice.
  pub arrive_all-Increases :
      (counter_recv : ℕ) (arrivals : List Arrival)
      → Increases counter_recv (arrive_all counter_recv arrivals).1
  unfolding arrive_all
  arrive_all-Increases counter_recv [] = tt
  arrive_all-Increases counter_recv (a ∷ arrivals) =
      let (next, counters) = arrive counter_recv a in
      add_later counter_recv next counters (arrive_all next arrivals).1 (arrive_step counter_recv a)
        (arrive_all-Increases next arrivals)
