-- ===== src/Wire/Codes.antt =====
-- The one-byte codes of the wire format: shared/src/wire/msg-types.ts, role.ts, intent.ts,
-- error-codes.ts, file-frame.ts and protocol-version.ts.
use unseen_fyi.Prelude.{
  ℕ, ◌+◌, ◌%◌, ◌≡◌, ◌↔◌, Bool, true, Option, some, List, [], ◌∷◌, ◌++◌, arith, length, contains,
}
use unseen_fyi.Prelude.Dict.{Dict, get}
use unseen_fyi.Prelude.Eq.{nat_eq}
use unseen_fyi.Wire.Bytes.{Bytes, zeros, set_bytes}

abbrev pub msg_hello : ℕ
msg_hello = 0x01

abbrev pub msg_ack : ℕ
msg_ack = 0x02

abbrev pub msg_peer_joined : ℕ
msg_peer_joined = 0x03

abbrev pub msg_handshake : ℕ
msg_handshake = 0x04

abbrev pub msg_relay : ℕ
msg_relay = 0x05

abbrev pub msg_peer_disconnected : ℕ
msg_peer_disconnected = 0x06

abbrev pub msg_peer_left : ℕ
msg_peer_left = 0x07

abbrev pub msg_error : ℕ
msg_error = 0x08

abbrev pub protocol_version : ℕ
protocol_version = 1

pub data Role : Type 0 where
  initiator joiner : Role

unfoldable pub role_to_byte : Role → ℕ
role_to_byte initiator = 0x01
role_to_byte joiner = 0x02

abbrev role_by_byte : Dict ℕ Role
role_by_byte = (0x01, initiator) ∷ (0x02, joiner) ∷ []

unfoldable pub byte_to_role : ℕ → Option Role
unfolding get
byte_to_role byte = get role_by_byte byte

pub data HelloIntent : Type 0 where
  create join resume : HelloIntent

unfoldable pub intent_to_byte : HelloIntent → ℕ
intent_to_byte create = 0x01
intent_to_byte join = 0x02
intent_to_byte resume = 0x03

abbrev intent_by_byte : Dict ℕ HelloIntent
intent_by_byte = (0x01, create) ∷ (0x02, join) ∷ (0x03, resume) ∷ []

unfoldable pub byte_to_intent : ℕ → Option HelloIntent
unfolding get
byte_to_intent byte = get intent_by_byte byte

pub data ErrorCode : Type 0 where
  invalid_hello unsupported_version room_full room_not_found room_already_exists over_capacity
        rate_limited message_too_large invalid_payload bad_state hello_timeout mode_mismatch
        internal :
      ErrorCode

unfoldable pub error_code_to_byte : ErrorCode → ℕ
error_code_to_byte invalid_hello = 0x01
error_code_to_byte unsupported_version = 0x02
error_code_to_byte room_full = 0x03
error_code_to_byte room_not_found = 0x04
error_code_to_byte room_already_exists = 0x05
error_code_to_byte over_capacity = 0x06
error_code_to_byte rate_limited = 0x07
error_code_to_byte message_too_large = 0x08
error_code_to_byte invalid_payload = 0x09
error_code_to_byte bad_state = 0x0a
error_code_to_byte hello_timeout = 0x0b
error_code_to_byte mode_mismatch = 0x0c
error_code_to_byte internal = 0xff

abbrev error_by_byte : Dict ℕ ErrorCode
error_by_byte =
    (0x01, invalid_hello)
    ∷ (0x02, unsupported_version)
    ∷ (0x03, room_full)
    ∷ (0x04, room_not_found)
    ∷ (0x05, room_already_exists)
    ∷ (0x06, over_capacity)
    ∷ (0x07, rate_limited)
    ∷ (0x08, message_too_large)
    ∷ (0x09, invalid_payload)
    ∷ (0x0a, bad_state)
    ∷ (0x0b, hello_timeout)
    ∷ (0x0c, mode_mismatch)
    ∷ (0xff, internal)
    ∷ []

unfoldable pub byte_to_error_code : ℕ → Option ErrorCode
unfolding get
byte_to_error_code byte = get error_by_byte byte

abbrev pub relay_kind_msg : ℕ
relay_kind_msg = 0x00

abbrev pub relay_kind_chunk : ℕ
relay_kind_chunk = 0x01

abbrev pub relay_kind_mode_upgraded : ℕ
relay_kind_mode_upgraded = 0x10

abbrev pub relay_kind_rekey_init : ℕ
relay_kind_rekey_init = 0x11

abbrev pub relay_kind_rekey_ack : ℕ
relay_kind_rekey_ack = 0x12

abbrev pub relay_kind_rekey_done : ℕ
relay_kind_rekey_done = 0x13

abbrev all_relay_kinds : List ℕ
all_relay_kinds =
    relay_kind_msg ∷ relay_kind_chunk ∷ relay_kind_mode_upgraded ∷ relay_kind_rekey_init
    ∷ relay_kind_rekey_ack ∷ relay_kind_rekey_done ∷ []

-- A `RelayKind` is a number for which this holds.
unfoldable pub is_relay_kind : ℕ → Bool
is_relay_kind byte = contains all_relay_kinds byte

-- The bytes of 'unseen:v1:'.
abbrev pub aad_prefix : Bytes
aad_prefix = b'u' ∷ b'n' ∷ b's' ∷ b'e' ∷ b'e' ∷ b'n' ∷ b':' ∷ b'v' ∷ b'1' ∷ b':' ∷ []

unfoldable pub aad_for : ℕ → Bytes
unfolding set_bytes
aad_for kind =
    let out = zeros (length aad_prefix + 1) in
    let out' = set_bytes out 0 aad_prefix in set_bytes out' (length aad_prefix) ((kind % 256) ∷ [])

abbrev pub tid_bytes : ℕ
tid_bytes = 8

abbrev pub seq_bytes : ℕ
seq_bytes = 4

abbrev pub chunk_header_bytes : ℕ
chunk_header_bytes = tid_bytes + seq_bytes

-- A byte decodes to a role exactly when it is that role's code.
pub role_code_iff : (b : ℕ) (r : Role) → (byte_to_role b ≡ some r) ↔ (role_to_byte r ≡ b)
unfolding byte_to_role role_to_byte
role_code_iff b initiator = ground arith
role_code_iff b joiner = ground arith

-- A byte decodes to an intent exactly when it is that intent's code.
pub intent_code_iff :
    (b : ℕ) (i : HelloIntent) → (byte_to_intent b ≡ some i) ↔ (intent_to_byte i ≡ b)
unfolding byte_to_intent intent_to_byte
intent_code_iff b create = ground arith
intent_code_iff b join = ground arith
intent_code_iff b resume = ground arith

-- A byte decodes to an error code exactly when it is that code's byte.
pub error_code_iff :
    (b : ℕ) (c : ErrorCode) → (byte_to_error_code b ≡ some c) ↔ (error_code_to_byte c ≡ b)
unfolding byte_to_error_code error_code_to_byte
error_code_iff b invalid_hello = ground arith
error_code_iff b _ = ground arith

-- The six kinds are bytes.
pub is_relay_kind_byte : (k : ℕ) → is_relay_kind k ≡ true → k % 256 ≡ k
unfolding is_relay_kind
is_relay_kind_byte k h = ground arith

-- The associated data of a kind is the prefix and the kind.
pub aad_for_lem : (k : ℕ) → is_relay_kind k ≡ true → aad_for k ≡ aad_prefix ++ (k ∷ [])
unfolding aad_for
aad_for_lem k h = ground (arith, is_relay_kind_byte k h)
