-- ===== src/Wire/Examples.antt =====
-- The theorems about the frames at concrete inputs.
use unseen_fyi.Prelude.{◌≡◌, true, refl, some, [], ◌∷◌, ◌++◌, arith, replicate}
use unseen_fyi.Prelude.Result.{ok}
use unseen_fyi.Wire.Bytes.{Bytes}
use unseen_fyi.Wire.Codes.{is_relay_kind}
use unseen_fyi.Wire.Frames.{Relay, ClientFrame, ServerFrame}
use unseen_fyi.Wire.Decode.{decode_client_frame, decode_server_frame, decode_relay}
use unseen_fyi.Wire.RoundTrip.{
  encode_client_frame, encode_server_frame, decode_client_frame-encode, decode_server_frame-encode,
}
use unseen_fyi.Wire.Envelope.{PlaintextEnvelope, plain_object}
use unseen_fyi.Wire.Envelope.Codec.{to_object, encode_envelope, decode_envelope}
use unseen_fyi.Wire.Envelope.RoundTrip.{decode_envelope-encode}
use unseen_fyi.Wire.Canonical.{encode_client_frame-decode, encode_server_frame-decode}

abbrev example_frame : Relay
example_frame = record { kind = 0x10; nonce = replicate 12 3; ciphertext = 4 ∷ 5 ∷ [] }

abbrev example_buffer : Bytes
example_buffer = 5 ∷ 0x10 ∷ (replicate 12 3 ++ 2 ∷ 0 ∷ 4 ∷ 5 ∷ [])

example_kind : is_relay_kind 0x10 ≡ true
unfolding is_relay_kind
example_kind = refl

decode_client_frame-encode_example :
    (buf : Bytes) × (encode_client_frame (ClientFrame.relay example_frame) ≡ ok buf)
    × (decode_client_frame buf ≡ some (ClientFrame.relay example_frame))
decode_client_frame-encode_example =
    decode_client_frame-encode (ClientFrame.relay example_frame) (example_kind, refl, omega arith)

decode_server_frame-encode_example :
    (buf : Bytes) × (encode_server_frame (ServerFrame.peer_disconnected 300_000) ≡ ok buf)
    × (decode_server_frame buf ≡ some (ServerFrame.peer_disconnected 300_000))
decode_server_frame-encode_example =
    decode_server_frame-encode (ServerFrame.peer_disconnected 300_000) (omega arith)

example_client : decode_client_frame example_buffer ≡ some (ClientFrame.relay example_frame)
unfolding decode_client_frame decode_relay is_relay_kind
example_client = refl

encode_client_frame-decode_example :
    encode_client_frame (ClientFrame.relay example_frame) ≡ ok example_buffer
encode_client_frame-decode_example =
    encode_client_frame-decode example_buffer (ClientFrame.relay example_frame) (omega arith)
      (omega arith) (λ g e. absurd (cc e)) example_client

example_peer_left : decode_server_frame (7 ∷ []) ≡ some ServerFrame.peer_left
unfolding decode_server_frame
example_peer_left = refl

encode_server_frame-decode_example : encode_server_frame ServerFrame.peer_left ≡ ok (7 ∷ [])
encode_server_frame-decode_example =
    encode_server_frame-decode (7 ∷ []) ServerFrame.peer_left (omega arith) (omega arith)
      example_peer_left

abbrev example_envelope : PlaintextEnvelope
example_envelope = PlaintextEnvelope.msg "hello" "2026"

-- A codec that knows one text.
decode_envelope-encode_example :
    (bytes : Bytes) × (encode_envelope (λ o. 123 ∷ 125 ∷ []) example_envelope ≡ ok bytes)
    × (decode_envelope (λ b. some (plain_object (to_object example_envelope))) bytes
        ≡ ok example_envelope)
decode_envelope-encode_example =
    decode_envelope-encode (λ o. 123 ∷ 125 ∷ [])
      (λ b. some (plain_object (to_object example_envelope))) example_envelope refl (omega arith)
      (omega arith)
