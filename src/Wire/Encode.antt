-- ===== src/Wire/Encode.antt =====
-- The encoders of shared/src/wire/codec.ts: each fills a fresh buffer by writes at fixed offsets.
use unseen_fyi.Prelude.{ℕ, ◌+◌, not, length, ltb, ◌==◌}
use unseen_fyi.Prelude.Result.{Result, ok, throw_if, ◌>>◌}
use unseen_fyi.Wire.Bytes.{Bytes, zeros, set_bytes, set_uint8, set_uint16, set_uint32}
use unseen_fyi.Wire.Codes.{
  Role, HelloIntent, ErrorCode, role_to_byte, intent_to_byte, error_code_to_byte, msg_hello,
  msg_ack, msg_peer_joined, msg_handshake, msg_relay, msg_peer_disconnected, msg_peer_left,
  msg_error, protocol_version,
}
use unseen_fyi.Wire.Frames.{
  max_wire_bytes, room_id_length, nonce_length, hello_frame_length, handshake_ciphertext_length,
  handshake_frame_length, relay_kind_offset, relay_nonce_offset, relay_ct_len_offset,
  relay_header_length, ack_frame_length, error_frame_length, peer_disconnected_frame_length,
  single_byte_frame_length, uint16_max, uint32_max,
}

-- The buffer that `encodeHello` fills once its argument has the right length.
abbrev pub hello_buffer : Bytes → HelloIntent → Bytes
hello_buffer room_id intent =
    let buf = set_uint8 (zeros hello_frame_length) 0 msg_hello in
    let buf' = set_bytes buf 1 room_id in
    let versioned = set_uint8 buf' (1 + room_id_length) protocol_version in
    set_uint8 versioned (1 + room_id_length + 1) (intent_to_byte intent)

unfoldable pub encode_hello : Bytes → HelloIntent → Result Bytes
unfolding set_uint8 set_bytes
encode_hello room_id intent = do
  throw_if (not (length room_id == room_id_length)) "roomId must be 16 bytes"
  ok (hello_buffer room_id intent)

abbrev pub handshake_buffer : Bytes → Bytes → Bytes
handshake_buffer nonce ciphertext =
    let buf = set_uint8 (zeros handshake_frame_length) 0 msg_handshake in
    let buf' = set_bytes buf 1 nonce in set_bytes buf' (1 + nonce_length) ciphertext

unfoldable pub encode_handshake : Bytes → Bytes → Result Bytes
unfolding set_uint8 set_bytes
encode_handshake nonce ciphertext = do
  throw_if (not (length nonce == nonce_length)) "handshake nonce must be 12 bytes"
  throw_if (not (length ciphertext == handshake_ciphertext_length))
      "handshake ciphertext must be 48 bytes (32 + 16 tag)"
  ok (handshake_buffer nonce ciphertext)

abbrev pub relay_buffer : ℕ → Bytes → Bytes → Bytes
relay_buffer kind nonce ciphertext =
    let buf = set_uint8 (zeros (relay_header_length + length ciphertext)) 0 msg_relay in
    let kinded = set_uint8 buf relay_kind_offset kind in
    let nonced = set_bytes kinded relay_nonce_offset nonce in
    let sized = set_uint16 nonced relay_ct_len_offset (length ciphertext) in
    set_bytes sized relay_header_length ciphertext

unfoldable pub encode_relay : ℕ → Bytes → Bytes → Result Bytes
unfolding set_uint8 set_uint16 set_bytes
encode_relay kind nonce ciphertext = do
  throw_if (not (length nonce == nonce_length)) "relay nonce must be 12 bytes"
  throw_if (ltb uint16_max (length ciphertext)) "ciphertext length exceeds uint16 range"
  throw_if (ltb max_wire_bytes (relay_header_length + length ciphertext))
      "relay frame exceeds maximum wire size"
  ok (relay_buffer kind nonce ciphertext)

unfoldable pub encode_ack : Role → Bytes
unfolding set_uint8 role_to_byte
encode_ack role =
    let buf = set_uint8 (zeros ack_frame_length) 0 msg_ack in set_uint8 buf 1 (role_to_byte role)

unfoldable pub encode_single_byte_frame : ℕ → Bytes
unfolding set_uint8
encode_single_byte_frame type = set_uint8 (zeros single_byte_frame_length) 0 type

unfoldable pub encode_peer_joined : Bytes
unfolding encode_single_byte_frame
encode_peer_joined = encode_single_byte_frame msg_peer_joined

unfoldable pub encode_peer_left : Bytes
unfolding encode_single_byte_frame
encode_peer_left = encode_single_byte_frame msg_peer_left

-- The argument is a natural number, so of the source's tests only the upper bound is left.
unfoldable pub encode_peer_disconnected : ℕ → Result Bytes
unfolding set_uint8 set_uint32
encode_peer_disconnected grace_ms = do
  throw_if (ltb uint32_max grace_ms) "graceMs must be a uint32"
  ok (
      let buf = set_uint8 (zeros peer_disconnected_frame_length) 0 msg_peer_disconnected in
      set_uint32 buf 1 grace_ms)

unfoldable pub encode_error : ErrorCode → Bytes
unfolding set_uint8 error_code_to_byte
encode_error code =
    let buf = set_uint8 (zeros error_frame_length) 0 msg_error in
    set_uint8 buf 1 (error_code_to_byte code)
