-- ===== src/Wire/ModeFrame.antt =====
-- shared/src/wire/mode-frame.ts: the payloads of the mode and rekey frames.
use unseen_fyi.Prelude.{
  ℕ, ◌≡◌, ◌↔◌, Bool, not, Option, none, some, [], arith, length, ◌==◌, if◌then◌else◌,
}
use unseen_fyi.Prelude.Result.{Result, ok, throw_if, ◌>>◌}
use unseen_fyi.Wire.Bytes.{Bytes}

abbrev pub rekey_pubkey_length : ℕ
rekey_pubkey_length = 32

abbrev pub encode_mode_upgraded_payload : Bytes
encode_mode_upgraded_payload = []

unfoldable pub encode_rekey_init_payload : Bytes → Result Bytes
encode_rekey_init_payload new_pub = do
  throw_if (not (length new_pub == rekey_pubkey_length)) "rekey_init pubkey must be 32 bytes"
  ok new_pub

unfoldable pub encode_rekey_ack_payload : Bytes → Result Bytes
encode_rekey_ack_payload new_pub = do
  throw_if (not (length new_pub == rekey_pubkey_length)) "rekey_ack pubkey must be 32 bytes"
  ok new_pub

abbrev pub encode_rekey_done_payload : Bytes
encode_rekey_done_payload = []

unfoldable pub decode_mode_upgraded_payload : Bytes → Bool
decode_mode_upgraded_payload payload = length payload == 0

unfoldable pub decode_rekey_pubkey_payload : Bytes → Option Bytes
decode_rekey_pubkey_payload payload =
    if length payload == rekey_pubkey_length then some payload else none

unfoldable pub decode_rekey_done_payload : Bytes → Bool
decode_rekey_done_payload payload = length payload == 0

-- The rekey payloads that are encoded are those that are decoded, to the same key.
pub decode_rekey-encode :
    (new_pub key : Bytes)
    → ((encode_rekey_init_payload new_pub ≡ ok key)
        ↔ (decode_rekey_pubkey_payload new_pub ≡ some key))
      × ((encode_rekey_ack_payload new_pub ≡ ok key)
          ↔ (decode_rekey_pubkey_payload new_pub ≡ some key))
unfolding encode_rekey_init_payload encode_rekey_ack_payload decode_rekey_pubkey_payload
decode_rekey-encode new_pub key = (ground arith, ground arith)
