-- ===== src/Wire/Layout.antt =====
-- What the encoders write, as plain sequences of bytes.
use mathlib.Core.List.{append_assoc}
use unseen_fyi.Prelude.{
  ℕ, ◌+◌, ◌/◌, ◌%◌, ◌≤◌, ◌≡◌, refl, sym, ap, ◌∙◌, true, [], ◌∷◌, ◌++◌, arith, length, replicate-add,
  length-replicate, length-append,
}
use unseen_fyi.Prelude.Result.{ok}
use unseen_fyi.Wire.Bytes.{
  Bytes, zeros, set_bytes, set_uint8, set_uint16, set_bytes-append, set_bytes-append_last,
  set_uint8-append, set_uint16-append,
}
use unseen_fyi.Wire.Codes.{
  HelloIntent, intent_to_byte, is_relay_kind, is_relay_kind_byte, msg_hello, msg_handshake,
  msg_relay, protocol_version,
}
use unseen_fyi.Wire.Frames.{max_wire_bytes, relay_header_length}
use unseen_fyi.Wire.Encode.{
  hello_buffer, encode_hello, handshake_buffer, encode_handshake, relay_buffer, encode_relay,
}

intent_byte : (i : HelloIntent) → intent_to_byte i % 256 ≡ intent_to_byte i
unfolding intent_to_byte
intent_byte i = ground arith

abbrev pub hello_bytes : Bytes → HelloIntent → Bytes
hello_bytes room i = msg_hello ∷ (room ++ protocol_version ∷ intent_to_byte i ∷ [])

abbrev pub handshake_bytes : Bytes → Bytes → Bytes
handshake_bytes nonce ct = msg_handshake ∷ (nonce ++ ct)

abbrev pub relay_bytes : ℕ → Bytes → Bytes → Bytes
relay_bytes kind nonce ct =
    msg_relay ∷ kind ∷ (nonce ++ (length ct % 256) ∷ (length ct / 256 % 256) ∷ ct)

-- HELLO: the type, the room, the version and the intent.
hello_buffer-layout :
    (room : Bytes) (i : HelloIntent) → length room ≡ 16 → hello_buffer room i ≡ hello_bytes room i
hello_buffer-layout room i h =
    ap (λ l. set_uint8 (set_uint8 (set_bytes l 1 room) 17 1) 18 byte)
      (set_uint8-append 0 [] (zeros 18) 0 1 refl)
    ∙ ap (λ l. set_uint8 (set_uint8 l 17 1) 18 byte)
        (set_bytes-append 1 (1 ∷ []) (zeros 16) (zeros 2) room refl h)
    ∙ ap (λ l. set_uint8 l 18 byte) (set_uint8-append 17 (1 ∷ room) (zeros 1) 0 1 (omega arith))
    ∙ ap (λ l. set_uint8 l 18 byte) (sym (append_assoc (1 ∷ room) (1 ∷ []) (zeros 1)))
    ∙ set_uint8-append 18 (1 ∷ room ++ 1 ∷ []) [] 0 byte
        (omega (arith, length-append room (1 ∷ [])))
    ∙ append_assoc (1 ∷ room) (1 ∷ []) ((byte % 256) ∷ [])
    ∙ ap (λ b. 1 ∷ (room ++ 1 ∷ b ∷ [])) (intent_byte i)
  where
    byte : ℕ
    byte = intent_to_byte i

handshake_buffer-layout :
    (nonce ct : Bytes)
    → length nonce ≡ 12
    → length ct ≡ 48
    → handshake_buffer nonce ct ≡ handshake_bytes nonce ct
handshake_buffer-layout nonce ct hn hc =
    ap (λ l. set_bytes (set_bytes l 1 nonce) 13 ct) (set_uint8-append 0 [] (zeros 60) 0 4 refl)
    ∙ ap (λ l. set_bytes l 13 ct) (set_bytes-append 1 (4 ∷ []) (zeros 12) (zeros 48) nonce refl hn)
    ∙ set_bytes-append_last 13 (4 ∷ nonce) (zeros 48) ct (omega arith) hc

relay_buffer-layout :
    (kind : ℕ) (nonce ct : Bytes)
    → is_relay_kind kind ≡ true
    → length nonce ≡ 12
    → relay_buffer kind nonce ct ≡ relay_bytes kind nonce ct
relay_buffer-layout kind nonce ct hk hn =
    ap (λ l. fill (set_uint8 (set_uint8 l 0 5) 1 kind)) (replicate-add 16 m 0)
    ∙ ap (λ l. fill (set_uint8 l 1 kind)) (set_uint8-append 0 [] (zeros 15 ++ zeros m) 0 5 refl)
    ∙ ap fill (set_uint8-append 1 (5 ∷ []) (zeros 14 ++ zeros m) 0 kind refl)
    ∙ ap (λ k. fill (5 ∷ k ∷ (zeros 14 ++ zeros m))) (is_relay_kind_byte kind hk)
    ∙ ap (λ l. set_bytes (set_uint16 l 14 m) 16 ct)
        (set_bytes-append 2 (5 ∷ kind ∷ []) (zeros 12) (zeros 2 ++ zeros m) nonce refl hn)
    ∙ ap (λ l. set_bytes l 16 ct)
        (set_uint16-append 14 (5 ∷ kind ∷ nonce) (zeros m) 0 0 m (omega arith))
    ∙ ap (λ l. set_bytes l 16 ct) (sym (append_assoc (5 ∷ kind ∷ nonce) size (zeros m)))
    ∙ set_bytes-append_last 16 (5 ∷ kind ∷ nonce ++ size) (zeros m) ct
        (omega (arith, length-append nonce size)) (sym (length-replicate m 0))
    ∙ append_assoc (5 ∷ kind ∷ nonce) size ct
  where
    m : ℕ
    m = length ct

    size : Bytes
    size = (m % 256) ∷ (m / 256 % 256) ∷ []

    fill : Bytes → Bytes
    fill l = set_bytes (set_uint16 (set_bytes l 2 nonce) 14 m) 16 ct

pub encode_hello-layout :
    (room : Bytes) (i : HelloIntent)
    → length room ≡ 16
    → encode_hello room i ≡ ok (hello_bytes room i)
unfolding encode_hello
encode_hello-layout room i h = ground (arith, hello_buffer-layout room i)

pub encode_handshake-layout :
    (nonce ct : Bytes)
    → length nonce ≡ 12
    → length ct ≡ 48
    → encode_handshake nonce ct ≡ ok (handshake_bytes nonce ct)
unfolding encode_handshake
encode_handshake-layout nonce ct hn hc = ground (arith, handshake_buffer-layout nonce ct)

pub encode_relay-layout :
    (kind : ℕ) (nonce ct : Bytes)
    → is_relay_kind kind ≡ true
    → length nonce ≡ 12
    → relay_header_length + length ct ≤ max_wire_bytes
    → encode_relay kind nonce ct ≡ ok (relay_bytes kind nonce ct)
unfolding encode_relay
encode_relay-layout kind nonce ct hk hn hc = ground (arith, relay_buffer-layout kind nonce ct)
