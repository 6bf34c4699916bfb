-- ===== src/Wire/Frames.antt =====
-- The frames of shared/src/wire/codec.ts, and their lengths.
use unseen_fyi.Prelude.{ℕ, ◌+◌}
use unseen_fyi.Wire.Bytes.{Bytes}
use unseen_fyi.Wire.Codes.{Role, HelloIntent, ErrorCode}

-- shared/src/limits.ts
abbrev pub max_wire_bytes : ℕ
max_wire_bytes = 8736

abbrev pub room_id_length : ℕ
room_id_length = 16

abbrev pub nonce_length : ℕ
nonce_length = 12

abbrev pub hello_frame_length : ℕ
hello_frame_length = 1 + room_id_length + 1 + 1

abbrev pub handshake_pubkey_length : ℕ
handshake_pubkey_length = 32

abbrev pub handshake_tag_length : ℕ
handshake_tag_length = 16

abbrev pub handshake_ciphertext_length : ℕ
handshake_ciphertext_length = handshake_pubkey_length + handshake_tag_length

abbrev pub handshake_frame_length : ℕ
handshake_frame_length = 1 + nonce_length + handshake_ciphertext_length

abbrev pub relay_kind_offset : ℕ
relay_kind_offset = 1

abbrev pub relay_nonce_offset : ℕ
relay_nonce_offset = 2

abbrev pub relay_ct_len_offset : ℕ
relay_ct_len_offset = relay_nonce_offset + nonce_length

abbrev pub relay_header_length : ℕ
relay_header_length = 1 + 1 + nonce_length + 2

abbrev pub ack_frame_length : ℕ
ack_frame_length = 2

abbrev pub error_frame_length : ℕ
error_frame_length = 2

abbrev pub peer_disconnected_frame_length : ℕ
peer_disconnected_frame_length = 5

abbrev pub single_byte_frame_length : ℕ
single_byte_frame_length = 1

abbrev pub uint16_max : ℕ
uint16_max = 0xffff

abbrev pub uint32_max : ℕ
uint32_max = 0xffff_ffff

pub record Hello : Type 0 where
  pub room_id : Bytes
  pub version : ℕ
  pub intent : HelloIntent

pub record Handshake : Type 0 where
  pub nonce : Bytes
  pub ciphertext : Bytes

pub record Relay : Type 0 where
  pub kind : ℕ
  pub nonce : Bytes
  pub ciphertext : Bytes

pub data ClientFrame : Type 0 where
  hello : Hello → ClientFrame
  handshake : Handshake → ClientFrame
  relay : Relay → ClientFrame

pub data ServerFrame : Type 0 where
  ack : Role → ServerFrame
  peer_joined : ServerFrame
  handshake : Handshake → ServerFrame
  relay : Relay → ServerFrame
  peer_disconnected : ℕ → ServerFrame
  peer_left : ServerFrame
  error : ErrorCode → ServerFrame
