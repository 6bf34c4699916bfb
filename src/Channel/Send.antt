-- ===== src/Channel/Send.antt =====
-- client/src/domain/send.ts, and canAttemptSend of client/src/transport/send-pipeline.ts.
-- AES-GCM is the platform's: it is a parameter, and what throws gives none.
use unseen_fyi.Prelude.{
  ℕ, ◌+◌, ◌≤◌, ◌≡◌, Bool, true, false, not, Option, none, some, String, ltb, leb, length, ◌==◌,
  if◌then◌else◌,
}
use unseen_fyi.Prelude.Result.{Result, ok, err}
use unseen_fyi.Wire.Bytes.{Bytes}
use unseen_fyi.Wire.Codes.{Role, relay_kind_chunk, aad_for}
use unseen_fyi.Wire.Encode.{encode_relay}
use unseen_fyi.Channel.Nonce.{direction_for_role, make_nonce}

-- `crypto.subtle` on AES-GCM keys, as shared/src/crypto/aesgcm.ts calls it: the key, the nonce, the
-- additional data, then the plaintext or the ciphertext.
pub record Aead (Key : Type 0) : Type 0 where
  pub aes_gcm_encrypt : Key → Bytes → Bytes → Bytes → Option Bytes
  pub aes_gcm_decrypt : Key → Bytes → Bytes → Bytes → Option Bytes

-- What is documented of it: with a nonce of 12 bytes a plaintext of up to 65536 bytes is encrypted,
-- the tag is 16 bytes more, and decryption with the same key, nonce and data gives the plaintext.
pub record AeadLaw (Key : Type 0) (aead : Aead Key) : Type 0 where
  pub decrypt_encrypt :
      (key : Key) (nonce aad plaintext : Bytes)
      → length nonce ≡ 12
      → length plaintext ≤ 65_536
      → (ciphertext : Bytes) × (aead.aes_gcm_encrypt key nonce aad plaintext ≡ some ciphertext)
        × (length ciphertext ≡ length plaintext + 16)
        × (aead.aes_gcm_decrypt key nonce aad ciphertext ≡ some plaintext)

abbrev pub reservation_block_text : ℕ
reservation_block_text = 1

abbrev pub reservation_block_chunk : ℕ
reservation_block_chunk = 64

-- The counters of a SendState. `stored` is what `persistCounterReserved` last wrote.
pub record SendCounters : Type 0 where
  pub counter_committed : ℕ
  pub counter_reserved : ℕ
  pub stored : ℕ

-- `persistCounterReserved`: not given, or a callback that returns or throws on a counter.
pub data Persist : Type 0 where
  absent : Persist
  present : (ℕ → Bool) → Persist

abbrev pub block_size_for : ℕ → ℕ
block_size_for kind =
    if kind == relay_kind_chunk then reservation_block_chunk else reservation_block_text

-- The reservation of a new block; none if the callback throws.
unfoldable pub reserve : Persist → SendCounters → ℕ → Option SendCounters
reserve absent state next = some (record {
  counter_committed = state.counter_committed;
  counter_reserved = next;
  stored = state.stored;
})
reserve (present returns) state next =
    if returns next
    then some (record {
      counter_committed = state.counter_committed;
      counter_reserved = next;
      stored = next;
    })
    else none

unfoldable pub commit : SendCounters → SendCounters × ℕ
commit state = (
  record {
    counter_committed = state.counter_committed + 1;
    counter_reserved = state.counter_reserved;
    stored = state.stored;
  },
  state.counter_committed + 1,
)

unfoldable pub commit_reserved : SendCounters → Option SendCounters → SendCounters × Option ℕ
unfolding commit
commit_reserved old none = (old, none)
commit_reserved old (some state) = let (state', counter) = commit state in (state', some counter)

-- The counter to use; none if the callback threw, and then nothing has changed.
unfoldable pub allocate_counter : Persist → SendCounters → ℕ → SendCounters × Option ℕ
unfolding reserve commit commit_reserved
allocate_counter persist state kind = commit_reserved state (
    if leb state.counter_reserved state.counter_committed
    then reserve persist state (state.counter_reserved + block_size_for kind)
    else some state)

-- `readyState` and `bufferedAmount` of a WebSocket, and whether `send` throws.
pub record Socket : Type 0 where
  pub ready_state : ℕ
  pub buffered_amount : ℕ
  pub send_throws : Bool

abbrev pub web_socket_open : ℕ
web_socket_open = 1

abbrev pub buffer_threshold_bytes : ℕ
buffer_threshold_bytes = 262_144

pub data Preflight : Type 0 where
  sendable not_ready backpressure : Preflight

unfoldable pub can_attempt_send : Socket → Preflight
can_attempt_send ws =
    if not (ws.ready_state == web_socket_open)
    then not_ready
    else if ltb buffer_threshold_bytes ws.buffered_amount
    then backpressure
    else sendable

-- What a task did: the counters after it, the frame it gave to the socket, the reason it gave to
-- `terminate`, and what it returned.
pub record Sent : Type 0 where
  pub counters : SendCounters
  pub frame : Option Bytes
  pub terminated : Option String
  pub returned : Bool

abbrev pub to_option : Result Bytes → Option Bytes
to_option (ok frame) = some frame
to_option (err e) = none

module _ {Key : Type 0} (aead : Aead Key) where
  unfoldable pub seal : ℕ → Bytes → Option Bytes → Option Bytes
  seal kind nonce none = none
  seal kind nonce (some ciphertext) = to_option (encode_relay kind nonce ciphertext)

  unfoldable pub seal_with : Role → Key → ℕ → Bytes → Result Bytes → Option Bytes
  unfolding seal
  seal_with role key kind plaintext (err e) = none
  seal_with role key kind plaintext (ok nonce) =
      seal kind nonce (aead.aes_gcm_encrypt key nonce (aad_for kind) plaintext)

  -- none: it threw.
  unfoldable pub encrypt_relay_frame : Role → Key → ℕ → ℕ → Bytes → Option Bytes
  unfolding seal_with
  encrypt_relay_frame role key kind counter plaintext =
      seal_with role key kind plaintext (make_nonce (direction_for_role role) counter)

  unfoldable pub hand_over : Socket → SendCounters → String → Option Bytes → Sent
  hand_over ws state reason none = record {
    counters = state;
    frame = none;
    terminated = some reason;
    returned = false;
  }
  hand_over ws state reason (some frame) =
      if ws.send_throws
      then record {
        counters = state;
        frame = none;
        terminated = some "send_failed";
        returned = false;
      }
      else record { counters = state; frame = some frame; terminated = none; returned = true }

  unfoldable pub attempt : Socket → Role → Key → ℕ → Bytes → String → SendCounters × Option ℕ → Sent
  unfolding hand_over
  attempt ws role key kind plaintext reason (state, none) = record {
    counters = state;
    frame = none;
    terminated = some reason;
    returned = false;
  }
  attempt ws role key kind plaintext reason (state, some counter) =
      hand_over ws state reason (encrypt_relay_frame role key kind counter plaintext)

  unfoldable pub is_sendable : Preflight → Bool
  is_sendable sendable = true
  is_sendable _ = false

  -- The steps of a task up to the end of its tries. `allocate` is `allocate_counter`.
  unfoldable pub run_relay_send_task :
      Persist → SendCounters → Bool → Option Socket → Role → Key → ℕ → Bytes → String → Sent
  unfolding attempt is_sendable
  run_relay_send_task persist state true connection role key kind plaintext reason = record {
    counters = state;
    frame = none;
    terminated = none;
    returned = false;
  }
  run_relay_send_task persist state false none role key kind plaintext reason = record {
    counters = state;
    frame = none;
    terminated = none;
    returned = false;
  }
  run_relay_send_task persist state false (some ws) role key kind plaintext reason =
      if not (is_sendable (can_attempt_send ws))
      then record { counters = state; frame = none; terminated = none; returned = false }
      else attempt ws role key kind plaintext reason (allocate_counter persist state kind)
