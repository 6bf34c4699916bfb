-- ===== src/Wire/RoundTrip.antt =====
-- Decoding what was encoded, for every frame of shared/src/wire/codec.ts.
use unseen_fyi.Prelude.{
  ℕ, ◌+◌, ◌/◌, ◌%◌, ◌≤◌, ◌<◌, ◌≡◌, refl, ap, true, some, [], ◌∷◌, arith, length, length-append,
  take-append_of, drop-append_of, drop-append_add, get_or-append_add, take_all,
}
use unseen_fyi.Prelude.Result.{Result, ok}
use unseen_fyi.Wire.Bytes.{Bytes, get_uint16_bytes, get_uint32_bytes}
use unseen_fyi.Wire.Codes.{
  initiator, joiner, invalid_hello, ErrorCode, byte_to_role, intent_to_byte, byte_to_error_code,
  intent_code_iff, is_relay_kind, protocol_version,
}
use unseen_fyi.Wire.Frames.{
  Hello, Handshake, Relay, ClientFrame, ServerFrame, max_wire_bytes, relay_header_length,
}
use unseen_fyi.Wire.Encode.{
  encode_hello, encode_handshake, encode_relay, encode_ack, encode_peer_joined, encode_peer_left,
  encode_peer_disconnected, encode_error,
}
use unseen_fyi.Wire.Decode.{
  decode_hello, decode_handshake, decode_relay, decode_client_frame, decode_server_frame,
  decode_ack, decode_peer_disconnected, decode_error,
}
use unseen_fyi.Wire.Layout.{
  hello_bytes, handshake_bytes, relay_bytes, encode_hello-layout, encode_handshake-layout,
  encode_relay-layout,
}

-- The frames that the encoders take without an error. A client's HELLO has the one version.
abbrev pub IsRelay : Relay → Type 0
IsRelay f =
    (is_relay_kind f.kind ≡ true)
    × (length f.nonce ≡ 12)
    × (relay_header_length + length f.ciphertext ≤ max_wire_bytes)

abbrev pub IsHandshake : Handshake → Type 0
IsHandshake f = (length f.nonce ≡ 12) × (length f.ciphertext ≡ 48)

abbrev pub IsHello : Hello → Type 0
IsHello f = (length f.room_id ≡ 16) × (f.version ≡ protocol_version)

-- The encoder for each frame.
unfoldable pub encode_client_frame : ClientFrame → Result Bytes
encode_client_frame (ClientFrame.hello f) = encode_hello f.room_id f.intent
encode_client_frame (ClientFrame.handshake f) = encode_handshake f.nonce f.ciphertext
encode_client_frame (ClientFrame.relay f) = encode_relay f.kind f.nonce f.ciphertext

unfoldable pub encode_server_frame : ServerFrame → Result Bytes
encode_server_frame (ServerFrame.ack r) = ok (encode_ack r)
encode_server_frame ServerFrame.peer_joined = ok encode_peer_joined
encode_server_frame (ServerFrame.handshake f) = encode_handshake f.nonce f.ciphertext
encode_server_frame (ServerFrame.relay f) = encode_relay f.kind f.nonce f.ciphertext
encode_server_frame (ServerFrame.peer_disconnected ms) = encode_peer_disconnected ms
encode_server_frame ServerFrame.peer_left = ok encode_peer_left
encode_server_frame (ServerFrame.error c) = ok (encode_error c)

abbrev pub IsClientFrame : ClientFrame → Type 0
IsClientFrame (ClientFrame.hello f) = IsHello f
IsClientFrame (ClientFrame.handshake f) = IsHandshake f
IsClientFrame (ClientFrame.relay f) = IsRelay f

abbrev pub IsServerFrame : ServerFrame → Type 0
IsServerFrame (ServerFrame.handshake f) = IsHandshake f
IsServerFrame (ServerFrame.relay f) = IsRelay f
IsServerFrame (ServerFrame.peer_disconnected ms) = ms < 4294967296
IsServerFrame _ = Unit {0}

decode_handshake_bytes :
    (f : Handshake)
    → IsHandshake f
    → decode_handshake (handshake_bytes f.nonce f.ciphertext) ≡ some f
unfolding decode_handshake
decode_handshake_bytes f (hn, hc) = ground (
  arith,
  length-append f.nonce f.ciphertext,
  take-append_of 12 f.nonce f.ciphertext hn,
  drop-append_of 12 f.nonce f.ciphertext hn,
  take_all 48 f.ciphertext,
)

decode_relay_bytes :
    (f : Relay) → IsRelay f → decode_relay (relay_bytes f.kind f.nonce f.ciphertext) ≡ some f
unfolding decode_relay
decode_relay_bytes f (hk, hn, hc) = ground (
  arith,
  length-append f.nonce rest,
  get_or-append_add 12 0 f.nonce rest 0 hn,
  get_or-append_add 12 1 f.nonce rest 0 hn,
  take-append_of 12 f.nonce rest hn,
  drop-append_add 12 2 f.nonce rest hn,
  get_uint16_bytes m,
  take_all m f.ciphertext,
)
  where
    m : ℕ
    m = length f.ciphertext

    rest : Bytes
    rest = (m % 256) ∷ (m / 256 % 256) ∷ f.ciphertext

decode_hello_bytes :
    (f : Hello) → IsHello f → decode_hello (hello_bytes f.room_id f.intent) ≡ some f
unfolding decode_hello
decode_hello_bytes f (hr, hv) = ground (
  arith,
  length-append f.room_id rest,
  get_or-append_add 16 0 f.room_id rest 0 hr,
  get_or-append_add 16 1 f.room_id rest 0 hr,
  take-append_of 16 f.room_id rest hr,
  intent_code_iff (intent_to_byte f.intent) f.intent,
)
  where
    rest : Bytes
    rest = protocol_version ∷ intent_to_byte f.intent ∷ []

-- The bytes of every valid frame, as the encoder writes them.
client_bytes : ClientFrame → Bytes
client_bytes (ClientFrame.hello f) = hello_bytes f.room_id f.intent
client_bytes (ClientFrame.handshake f) = handshake_bytes f.nonce f.ciphertext
client_bytes (ClientFrame.relay f) = relay_bytes f.kind f.nonce f.ciphertext

encode_client_frame_bytes :
    (f : ClientFrame) → IsClientFrame f → encode_client_frame f ≡ ok (client_bytes f)
unfolding encode_client_frame client_bytes
encode_client_frame_bytes (ClientFrame.hello f) (hr, hv) = encode_hello-layout f.room_id f.intent hr
encode_client_frame_bytes (ClientFrame.handshake f) (hn, hc) =
    encode_handshake-layout f.nonce f.ciphertext hn hc
encode_client_frame_bytes (ClientFrame.relay f) (hk, hn, hc) =
    encode_relay-layout f.kind f.nonce f.ciphertext hk hn hc

decode_client_bytes :
    (f : ClientFrame) → IsClientFrame f → decode_client_frame (client_bytes f) ≡ some f
unfolding decode_client_frame client_bytes
decode_client_bytes (ClientFrame.hello f) h = ground (arith, decode_hello_bytes f h)
decode_client_bytes (ClientFrame.handshake f) h = ground (arith, decode_handshake_bytes f h)
decode_client_bytes (ClientFrame.relay f) h = ground (arith, decode_relay_bytes f h)

-- Every valid client frame is encoded without an error, and the relay's decoder reads the bytes
-- back as that frame. Valid is: for HELLO a room of 16 bytes and version 1; for HANDSHAKE a nonce of
-- 12 bytes and a ciphertext of 48; for RELAY a known kind, a nonce of 12 bytes and a frame of at
-- most `max_wire_bytes`.
pub decode_client_frame-encode :
    (f : ClientFrame)
    → IsClientFrame f
    → (buf : Bytes) × (encode_client_frame f ≡ ok buf) × (decode_client_frame buf ≡ some f)
decode_client_frame-encode f h =
    (client_bytes f, encode_client_frame_bytes f h, decode_client_bytes f h)

server_bytes : ServerFrame → Bytes
server_bytes (ServerFrame.ack r) = encode_ack r
server_bytes ServerFrame.peer_joined = encode_peer_joined
server_bytes (ServerFrame.handshake f) = handshake_bytes f.nonce f.ciphertext
server_bytes (ServerFrame.relay f) = relay_bytes f.kind f.nonce f.ciphertext
server_bytes (ServerFrame.peer_disconnected ms) =
    0x06 ∷ (ms % 256) ∷ (ms / 256 % 256) ∷ (ms / 65536 % 256) ∷ (ms / 16777216 % 256) ∷ []
server_bytes ServerFrame.peer_left = encode_peer_left
server_bytes (ServerFrame.error c) = encode_error c

encode_server_frame_bytes :
    (f : ServerFrame) → IsServerFrame f → encode_server_frame f ≡ ok (server_bytes f)
unfolding encode_server_frame server_bytes encode_peer_disconnected
encode_server_frame_bytes (ServerFrame.handshake f) (hn, hc) =
    encode_handshake-layout f.nonce f.ciphertext hn hc
encode_server_frame_bytes (ServerFrame.relay f) (hk, hn, hc) =
    encode_relay-layout f.kind f.nonce f.ciphertext hk hn hc
encode_server_frame_bytes (ServerFrame.peer_disconnected ms) h = ground arith
encode_server_frame_bytes _ h = refl

decode_error-encode :
    (c : ErrorCode) → decode_server_frame (encode_error c) ≡ some (ServerFrame.error c)
unfolding decode_server_frame decode_error encode_error byte_to_error_code
decode_error-encode invalid_hello = refl
decode_error-encode _ = refl

decode_server_bytes :
    (f : ServerFrame) → IsServerFrame f → decode_server_frame (server_bytes f) ≡ some f
unfolding decode_server_frame server_bytes
decode_server_bytes (ServerFrame.ack initiator) h =
    unfold encode_ack decode_ack byte_to_role in refl
decode_server_bytes (ServerFrame.ack joiner) h = unfold encode_ack decode_ack byte_to_role in refl
decode_server_bytes ServerFrame.peer_joined h = unfold encode_peer_joined in refl
decode_server_bytes (ServerFrame.handshake f) h = ground (arith, decode_handshake_bytes f h)
decode_server_bytes (ServerFrame.relay f) h = ground (arith, decode_relay_bytes f h)
decode_server_bytes (ServerFrame.peer_disconnected ms) h =
    unfold decode_peer_disconnected in
    ap (λ n. some (ServerFrame.peer_disconnected n)) (get_uint32_bytes ms h)
decode_server_bytes ServerFrame.peer_left h = unfold encode_peer_left in refl
decode_server_bytes (ServerFrame.error c) h = decode_error-encode c

-- Every valid relay-to-client frame is encoded without an error, and the client's decoder reads the
-- bytes back as that frame. All frames are valid but for HANDSHAKE and RELAY frames of other lengths
-- or kinds than a client frame's, and a grace period that is no uint32.
pub decode_server_frame-encode :
    (f : ServerFrame)
    → IsServerFrame f
    → (buf : Bytes) × (encode_server_frame f ≡ ok buf) × (decode_server_frame buf ≡ some f)
decode_server_frame-encode f h =
    (server_bytes f, encode_server_frame_bytes f h, decode_server_bytes f h)
