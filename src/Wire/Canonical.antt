-- ===== src/Wire/Canonical.antt =====
-- Encoding what was decoded: the decoders of shared/src/wire/codec.ts accept only what the encoders
-- write.
use unseen_fyi.Prelude.{
  ℕ, zero, suc, ◌+◌, ◌*◌, ◌/◌, ◌%◌, ◌≤◌, ◌<◌, ◌≡◌, refl, ap, ◌∙◌, true, some, [], ◌∷◌, ◌++◌, arith,
  length, take, drop, get_or, take-append-drop, length-take, length-drop, take_all, All,
}
use unseen_fyi.Prelude.Result.{ok}
use unseen_fyi.Wire.Bytes.{Bytes, IsByte}
use unseen_fyi.Wire.Codes.{
  Role, initiator, ErrorCode, invalid_hello, role_to_byte, intent_to_byte, error_code_to_byte,
  role_code_iff, intent_code_iff, error_code_iff, is_relay_kind, protocol_version,
}
use unseen_fyi.Wire.Frames.{Hello, Handshake, Relay, ClientFrame, ServerFrame, max_wire_bytes}
use unseen_fyi.Wire.Decode.{
  decode_hello, decode_handshake, decode_relay, decode_client_frame, decode_server_frame,
  decode_ack, decode_error, decode_peer_disconnected,
}
use unseen_fyi.Wire.Encode.{
  encode_ack, encode_peer_joined, encode_peer_left, encode_peer_disconnected, encode_error,
}
use unseen_fyi.Wire.Layout.{
  relay_bytes, encode_hello-layout, encode_handshake-layout, encode_relay-layout,
}
use unseen_fyi.Wire.RoundTrip.{IsHandshake, encode_client_frame, encode_server_frame}

All-drop : (P : ℕ → Type 0) (n : ℕ) (xs : Bytes) → All P xs → All P (drop n xs)
All-drop P zero xs h = h
All-drop P (suc n) [] h = tt
All-drop P (suc n) (x ∷ xs) h = All-drop P n xs h.1

-- The two bytes of the length and what follows them.
tail_bytes :
    (m : ℕ) (xs : Bytes)
    → All IsByte xs
    → length xs ≡ 2 + m
    → get_or xs 0 0 + 256 * get_or xs 1 0 ≡ m
    → xs ≡ (m % 256) ∷ (m / 256 % 256) ∷ take m (drop 2 xs)
tail_bytes m [] b h e = absurd (omega arith)
tail_bytes m (x ∷ []) b h e = absurd (omega arith)
tail_bytes m (x ∷ y ∷ xs) b h e = ground (arith, take_all m xs)

get_or-drop : (n j : ℕ) (xs : Bytes) → get_or (drop n xs) j 0 ≡ get_or xs (n + j) 0
get_or-drop zero j xs = ap (λ k. get_or xs k 0) (omega arith)
get_or-drop (suc n) j [] = refl
get_or-drop (suc n) j (x ∷ xs) =
    get_or-drop n j xs
    ∙ ap (λ k. get_or (x ∷ xs) k 0) (let e : suc (n + j) ≡ suc n + j = omega arith in e)

drop-drop : (n : ℕ) (xs : Bytes) → drop 2 (drop n xs) ≡ drop (suc (suc n)) xs
drop-drop zero xs = refl
drop-drop (suc n) [] = refl
drop-drop (suc n) (x ∷ xs) = drop-drop n xs

relay_inverse :
    (t k : ℕ) (rest : Bytes) (f : Relay)
    → All IsByte rest
    → decode_relay (t ∷ k ∷ rest) ≡ some f
    → (t ∷ k ∷ rest ≡ t ∷ f.kind ∷ drop 2 (relay_bytes f.kind f.nonce f.ciphertext))
      × (is_relay_kind f.kind ≡ true)
      × (length f.nonce ≡ 12)
      × (length (t ∷ k ∷ rest) ≡ 16 + length f.ciphertext)
unfolding decode_relay
relay_inverse t k rest f b h = ground (
  arith,
  take-append-drop 12 rest,
  length-take 12 rest,
  length-drop 12 rest,
  length-drop 14 rest,
  length-take (get_or rest 12 0 + 256 * get_or rest 13 0) (drop 14 rest),
  get_or-drop 12 0 rest,
  get_or-drop 12 1 rest,
  drop-drop 12 rest,
  tail_bytes (get_or rest 12 0 + 256 * get_or rest 13 0) (drop 12 rest) (All-drop IsByte 12 rest b),
)

handshake_inverse :
    (t : ℕ) (rest : Bytes) (f : Handshake)
    → decode_handshake (t ∷ rest) ≡ some f
    → (rest ≡ f.nonce ++ f.ciphertext) × IsHandshake f
unfolding decode_handshake
handshake_inverse t rest f h = ground (
  arith,
  take-append-drop 12 rest,
  length-take 12 rest,
  length-drop 12 rest,
  take_all 48 (drop 12 rest),
)

two_bytes : (xs : Bytes) → length xs ≡ 2 → xs ≡ get_or xs 0 0 ∷ get_or xs 1 0 ∷ []
two_bytes [] h = absurd (omega arith)
two_bytes (x ∷ []) h = absurd (omega arith)
two_bytes (x ∷ y ∷ []) h = refl
two_bytes (x ∷ y ∷ z ∷ xs) h = absurd (omega arith)

hello_inverse :
    (t : ℕ) (rest : Bytes) (f : Hello)
    → decode_hello (t ∷ rest) ≡ some f
    → (rest ≡ f.room_id ++ f.version ∷ intent_to_byte f.intent ∷ []) × (length f.room_id ≡ 16)
unfolding decode_hello
hello_inverse t rest f h = ground (
  arith,
  take-append-drop 16 rest,
  length-take 16 rest,
  length-drop 16 rest,
  two_bytes (drop 16 rest),
  get_or-drop 16 0 rest,
  get_or-drop 16 1 rest,
  intent_code_iff (get_or rest 17 0) f.intent,
)

-- A buffer of bytes, no longer than `max_wire_bytes`, that the relay's decoder reads as a HANDSHAKE
-- or RELAY frame, or as a HELLO of version 1, is what the encoder writes for that frame: the wire
-- format has one form for each frame.
pub encode_client_frame-decode :
    (buf : Bytes) (f : ClientFrame)
    → All IsByte buf
    → length buf ≤ max_wire_bytes
    → ((g : Hello) → f ≡ ClientFrame.hello g → g.version ≡ protocol_version)
    → decode_client_frame buf ≡ some f
    → encode_client_frame f ≡ ok buf
unfolding decode_client_frame encode_client_frame
encode_client_frame-decode [] f b l v h = cc
encode_client_frame-decode (t ∷ rest) (ClientFrame.hello g) b l v h =
    ground (arith, hello_inverse t rest g, v g refl, encode_hello-layout g.room_id g.intent)
encode_client_frame-decode (t ∷ rest) (ClientFrame.handshake g) b l v h =
    ground (arith, handshake_inverse t rest g, encode_handshake-layout g.nonce g.ciphertext)
encode_client_frame-decode (t ∷ []) (ClientFrame.relay g) b l v h =
    unfold decode_relay in ground arith
encode_client_frame-decode (t ∷ k ∷ rest) (ClientFrame.relay g) b l v h =
    ground (arith, relay_inverse t k rest g b.1.1, encode_relay-layout g.kind g.nonce g.ciphertext)

encode_ack-bytes : (r : Role) → encode_ack r ≡ 0x02 ∷ role_to_byte r ∷ []
unfolding encode_ack
encode_ack-bytes initiator = refl
encode_ack-bytes _ = refl

encode_error-bytes : (c : ErrorCode) → encode_error c ≡ 0x08 ∷ error_code_to_byte c ∷ []
unfolding encode_error
encode_error-bytes invalid_hello = refl
encode_error-bytes _ = refl

-- Four bytes of a uint32, taken apart again.
uint32_bytes :
    (a b c d v : ℕ)
    → IsByte a
    → IsByte b
    → IsByte c
    → IsByte d
    → a + 256 * b + 65536 * c + 16777216 * d ≡ v
    → (v < 4294967296)
      × (v % 256 ≡ a)
      × (v / 256 % 256 ≡ b)
      × (v / 65536 % 256 ≡ c)
      × (v / 16777216 % 256 ≡ d)
uint32_bytes a b c d v ha hb hc hd e = omega arith

ack_inverse :
    (buf : Bytes) (r : Role)
    → decode_ack buf ≡ some (ServerFrame.ack r)
    → get_or buf 0 0 ≡ 0x02
    → encode_ack r ≡ buf
unfolding decode_ack
ack_inverse [] r h e = cc
ack_inverse (t ∷ []) r h e = ground arith
ack_inverse (t ∷ b ∷ []) r h e = ground (arith, role_code_iff b r, encode_ack-bytes r)
ack_inverse (t ∷ b ∷ c ∷ rest) r h e = ground arith

error_inverse :
    (buf : Bytes) (c : ErrorCode)
    → decode_error buf ≡ some (ServerFrame.error c)
    → get_or buf 0 0 ≡ 0x08
    → encode_error c ≡ buf
unfolding decode_error
error_inverse [] c h e = cc
error_inverse (t ∷ []) c h e = ground arith
error_inverse (t ∷ b ∷ []) c h e = ground (arith, error_code_iff b c, encode_error-bytes c)
error_inverse (t ∷ b ∷ d ∷ rest) c h e = ground arith

peer_disconnected_inverse :
    (buf : Bytes) (ms : ℕ)
    → All IsByte buf
    → decode_peer_disconnected buf ≡ some (ServerFrame.peer_disconnected ms)
    → get_or buf 0 0 ≡ 0x06
    → encode_peer_disconnected ms ≡ ok buf
unfolding decode_peer_disconnected encode_peer_disconnected
peer_disconnected_inverse (t ∷ a ∷ b ∷ c ∷ d ∷ []) ms v h e =
    ground (arith, uint32_bytes a b c d ms v.1.0 v.1.1.0 v.1.1.1.0 v.1.1.1.1.0)
peer_disconnected_inverse [] ms v h e = ground arith
peer_disconnected_inverse (t ∷ []) ms v h e = ground arith
peer_disconnected_inverse (t ∷ a ∷ []) ms v h e = ground arith
peer_disconnected_inverse (t ∷ a ∷ b ∷ []) ms v h e = ground arith
peer_disconnected_inverse (t ∷ a ∷ b ∷ c ∷ []) ms v h e = ground arith
peer_disconnected_inverse (t ∷ a ∷ b ∷ c ∷ d ∷ x ∷ rest) ms v h e = ground arith

single_byte : (t : ℕ) (rest : Bytes) → length (t ∷ rest) ≡ 1 → t ∷ rest ≡ t ∷ []
single_byte t [] h = refl
single_byte t (x ∷ rest) h = absurd (omega arith)

-- A buffer of bytes, no longer than `max_wire_bytes`, that the client's decoder reads as a frame is
-- what the encoder writes for that frame.
pub encode_server_frame-decode :
    (buf : Bytes) (f : ServerFrame)
    → All IsByte buf
    → length buf ≤ max_wire_bytes
    → decode_server_frame buf ≡ some f
    → encode_server_frame f ≡ ok buf
unfolding decode_server_frame encode_server_frame decode_ack decode_error decode_peer_disconnected
encode_server_frame-decode [] f b l h = cc
encode_server_frame-decode (t ∷ rest) (ServerFrame.ack r) b l h =
    ground (arith, ack_inverse (t ∷ rest) r)
encode_server_frame-decode (t ∷ rest) ServerFrame.peer_joined b l h =
    unfold encode_peer_joined in ground (arith, single_byte t rest)
encode_server_frame-decode (t ∷ rest) (ServerFrame.handshake g) b l h =
    ground (arith, handshake_inverse t rest g, encode_handshake-layout g.nonce g.ciphertext)
encode_server_frame-decode (t ∷ []) (ServerFrame.relay g) b l h =
    unfold decode_relay in ground arith
encode_server_frame-decode (t ∷ k ∷ rest) (ServerFrame.relay g) b l h =
    ground (arith, relay_inverse t k rest g b.1.1, encode_relay-layout g.kind g.nonce g.ciphertext)
encode_server_frame-decode (t ∷ rest) (ServerFrame.peer_disconnected ms) b l h =
    ground (arith, peer_disconnected_inverse (t ∷ rest) ms b)
encode_server_frame-decode (t ∷ rest) ServerFrame.peer_left b l h =
    unfold encode_peer_left in ground (arith, single_byte t rest)
encode_server_frame-decode (t ∷ rest) (ServerFrame.error c) b l h =
    ground (arith, error_inverse (t ∷ rest) c)
