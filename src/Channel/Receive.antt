-- ===== src/Channel/Receive.antt =====
-- client/src/domain/receive.ts. AES-GCM is a parameter, as in Channel/Send.antt.
use unseen_fyi.Prelude.{ℕ, ◌+◌, Bool, true, not, Option, none, some, leb, ◌==◌, if◌then◌else◌}
use unseen_fyi.Prelude.Result.{Result, ok, err}
use unseen_fyi.Wire.Bytes.{Bytes}
use unseen_fyi.Wire.Codes.{Role, relay_kind_msg, relay_kind_chunk, aad_for}
use unseen_fyi.Channel.Nonce.{NonceFields, expected_peer_direction, parse_nonce}
use unseen_fyi.Channel.Send.{Aead, Persist, absent, present}

pub data CounterMode : Type 0 where
  strict first_gap_allowed : CounterMode

-- The statuses of RelayFrameResult; `accepted` is the status 'ok'.
pub data RelayFrameResult : Type 0 where
  accepted : Bytes → ℕ → RelayFrameResult
  invalid_direction invalid_reserved counter_gap decrypt_failed : RelayFrameResult

pub data ReceiveResult (Envelope : Type 0) : Type 0 where
  received : Envelope → ℕ → ReceiveResult Envelope
  refused : RelayFrameResult → ReceiveResult Envelope
  malformed_envelope : ReceiveResult Envelope

unfoldable pub is_gap : CounterMode → ℕ → ℕ → Bool
is_gap strict counter counter_recv = not (counter == counter_recv + 1)
is_gap first_gap_allowed counter counter_recv = leb counter counter_recv

unfoldable pub opened_frame : ℕ → Option Bytes → RelayFrameResult
opened_frame counter none = decrypt_failed
opened_frame counter (some plaintext) = accepted plaintext counter

-- `persistCounterRecv` was not given or returned.
unfoldable pub persists : Persist → ℕ → Bool
persists absent counter = true
persists (present returns) counter = returns counter

module _ {Key : Type 0} (aead : Aead Key) where
  unfoldable pub decrypt_checked :
      ℕ
      → Role
      → Key
      → ℕ
      → Bytes
      → Bytes
      → CounterMode
      → Result NonceFields
      → Result RelayFrameResult
  unfolding is_gap opened_frame
  decrypt_checked counter_recv role key kind nonce ciphertext mode (err e) = err e
  decrypt_checked counter_recv role key kind nonce ciphertext mode (ok fields) = ok (
      if not (fields.direction == expected_peer_direction role)
      then invalid_direction
      else if not fields.reserved_all_zero
      then invalid_reserved
      else if is_gap mode fields.counter counter_recv
      then counter_gap
      else opened_frame fields.counter (aead.aes_gcm_decrypt key nonce (aad_for kind) ciphertext))

  unfoldable pub validate_and_decrypt_frame :
      ℕ → Role → Key → ℕ → Bytes → Bytes → CounterMode → Result RelayFrameResult
  validate_and_decrypt_frame counter_recv role key kind nonce ciphertext mode =
      decrypt_checked counter_recv role key kind nonce ciphertext mode (parse_nonce nonce)

  -- What is done with a chunk's frame: the counter advances if it was accepted.
  unfoldable pub chunk_result : ℕ → Result RelayFrameResult → ℕ × Result RelayFrameResult
  chunk_result counter_recv (ok (accepted plaintext counter)) =
      (counter, ok (accepted plaintext counter))
  chunk_result counter_recv result = (counter_recv, result)

  -- `state.counterRecv` after the call, and what is returned.
  unfoldable pub decrypt_chunk_frame :
      ℕ → Role → Key → Bytes → Bytes → CounterMode → ℕ × Result RelayFrameResult
  unfolding chunk_result
  decrypt_chunk_frame counter_recv role key nonce ciphertext mode =
      chunk_result counter_recv
        (validate_and_decrypt_frame counter_recv role key relay_kind_chunk nonce ciphertext mode)

  -- `decode_envelope` is none where `decodeEnvelope` throws.
  module _ {Envelope : Type 0} (decode_envelope : Bytes → Option Envelope) where
    -- The counter is assigned before it is persisted, within the same `try`.
    unfoldable pub envelope_result :
        Persist → ℕ → ℕ → Option Envelope → ℕ × Result (ReceiveResult Envelope)
    unfolding persists
    envelope_result persist counter_recv counter none = (counter_recv, ok malformed_envelope)
    envelope_result persist counter_recv counter (some envelope) = (
      counter,
      ok (if persists persist counter then received envelope counter else malformed_envelope),
    )

    unfoldable pub incoming_result :
        Persist → ℕ → Result RelayFrameResult → ℕ × Result (ReceiveResult Envelope)
    unfolding envelope_result
    incoming_result persist counter_recv (err e) = (counter_recv, err e)
    incoming_result persist counter_recv (ok (accepted plaintext counter)) =
        envelope_result persist counter_recv counter (decode_envelope plaintext)
    incoming_result persist counter_recv (ok frame) = (counter_recv, ok (refused frame))

    unfoldable pub decrypt_incoming :
        Persist → ℕ → Role → Key → Bytes → Bytes → CounterMode → ℕ × Result (ReceiveResult Envelope)
    unfolding incoming_result
    decrypt_incoming persist counter_recv role key nonce ciphertext mode =
        incoming_result persist counter_recv
          (validate_and_decrypt_frame counter_recv role key relay_kind_msg nonce ciphertext mode)
