-- ===== src/Wire/Decode.antt =====
-- The decoders of shared/src/wire/codec.ts. `none` stands for `undefined`.
use unseen_fyi.Prelude.{ℕ, ◌+◌, not, Option, none, some, length, ltb, ◌==◌, if◌then◌else◌}
use mathlib.Core.Option
use unseen_fyi.Wire.Bytes.{Bytes, get_uint8, get_uint16, get_uint32, slice}
use unseen_fyi.Wire.Codes.{
  byte_to_role, byte_to_intent, byte_to_error_code, is_relay_kind, msg_hello, msg_ack,
  msg_peer_joined, msg_handshake, msg_relay, msg_peer_disconnected, msg_peer_left, msg_error,
}
use unseen_fyi.Wire.Frames.{
  Hello, Handshake, Relay, ClientFrame, ServerFrame, room_id_length, nonce_length,
  hello_frame_length, handshake_frame_length, relay_kind_offset, relay_nonce_offset,
  relay_ct_len_offset, relay_header_length, ack_frame_length, error_frame_length,
  peer_disconnected_frame_length, single_byte_frame_length,
}

unfoldable pub decode_hello : Bytes → Option Hello
decode_hello buf =
    if not (length buf == hello_frame_length)
    then none
    else elim (byte_to_intent (get_uint8 buf (1 + room_id_length + 1))) [
      | none ↦ none
      | some intent ↦ some (record {
        room_id = slice buf 1 (1 + room_id_length);
        version = get_uint8 buf (1 + room_id_length);
        intent = intent;
      })
    ]

unfoldable pub decode_handshake : Bytes → Option Handshake
decode_handshake buf =
    if not (length buf == handshake_frame_length)
    then none
    else some (record {
      nonce = slice buf 1 (1 + nonce_length);
      ciphertext = slice buf (1 + nonce_length) handshake_frame_length;
    })

unfoldable pub decode_relay : Bytes → Option Relay
decode_relay buf =
    if ltb (length buf) relay_header_length
    then none
    else if not (is_relay_kind (get_uint8 buf relay_kind_offset))
    then none
    else if not (length buf == relay_header_length + get_uint16 buf relay_ct_len_offset)
    then none
    else some (record {
      kind = get_uint8 buf relay_kind_offset;
      nonce = slice buf relay_nonce_offset (relay_nonce_offset + nonce_length);
      ciphertext =
          slice buf relay_header_length (relay_header_length + get_uint16 buf relay_ct_len_offset);
    })

unfoldable pub decode_ack : Bytes → Option ServerFrame
decode_ack buf =
    if not (length buf == ack_frame_length)
    then none
    else Option.map ServerFrame.ack (byte_to_role (get_uint8 buf 1))

unfoldable pub decode_peer_disconnected : Bytes → Option ServerFrame
decode_peer_disconnected buf =
    if not (length buf == peer_disconnected_frame_length)
    then none
    else some (ServerFrame.peer_disconnected (get_uint32 buf 1))

unfoldable pub decode_error : Bytes → Option ServerFrame
decode_error buf =
    if not (length buf == error_frame_length)
    then none
    else Option.map ServerFrame.error (byte_to_error_code (get_uint8 buf 1))

unfoldable pub read_type : Bytes → Option ℕ
read_type buf = if ltb (length buf) 1 then none else some (get_uint8 buf 0)

client_frame_of : ℕ → Bytes → Option ClientFrame
client_frame_of type buf =
    if type == msg_hello
    then Option.map ClientFrame.hello (decode_hello buf)
    else if type == msg_handshake
    then Option.map ClientFrame.handshake (decode_handshake buf)
    else if type == msg_relay
    then Option.map ClientFrame.relay (decode_relay buf)
    else none

unfoldable pub decode_client_frame : Bytes → Option ClientFrame
unfolding client_frame_of read_type
decode_client_frame buf = elim (read_type buf) [
  | none ↦ none
  | some type ↦ client_frame_of type buf
]

server_frame_of : ℕ → Bytes → Option ServerFrame
server_frame_of type buf =
    if type == msg_ack
    then decode_ack buf
    else if type == msg_peer_joined
    then (if length buf == single_byte_frame_length then some ServerFrame.peer_joined else none)
    else if type == msg_peer_left
    then (if length buf == single_byte_frame_length then some ServerFrame.peer_left else none)
    else if type == msg_peer_disconnected
    then decode_peer_disconnected buf
    else if type == msg_error
    then decode_error buf
    else if type == msg_handshake
    then Option.map ServerFrame.handshake (decode_handshake buf)
    else if type == msg_relay
    then Option.map ServerFrame.relay (decode_relay buf)
    else none

unfoldable pub decode_server_frame : Bytes → Option ServerFrame
unfolding server_frame_of read_type
decode_server_frame buf = elim (read_type buf) [
  | none ↦ none
  | some type ↦ server_frame_of type buf
]
