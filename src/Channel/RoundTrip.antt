-- ===== src/Channel/RoundTrip.antt =====
-- A frame from the sender's plaintext to the receiver's.
use unseen_fyi.Prelude.{ℕ, ◌+◌, ◌≤◌, ◌<◌, ◌≡◌, refl, true, some, arith, length}
use unseen_fyi.Prelude.Result.{ok}
use unseen_fyi.Wire.Bytes.{Bytes}
use unseen_fyi.Wire.Codes.{Role, initiator, joiner, is_relay_kind, aad_for}
use unseen_fyi.Wire.Frames.{ServerFrame, Relay}
use unseen_fyi.Wire.Encode.{encode_relay}
use unseen_fyi.Wire.Decode.{decode_server_frame}
use unseen_fyi.Wire.RoundTrip.{encode_server_frame, decode_server_frame-encode}
use unseen_fyi.Channel.Nonce.{
  max_counter, direction_for_role, expected_peer_direction, make_nonce, parse_nonce,
  parse_nonce-make_nonce,
}
use unseen_fyi.Channel.Send.{Aead, AeadLaw, seal, seal_with, encrypt_relay_frame}
use unseen_fyi.Channel.Receive.{
  strict, accepted, is_gap, opened_frame, decrypt_checked, validate_and_decrypt_frame,
}

unfoldable pub peer_of : Role → Role
peer_of initiator = joiner
peer_of joiner = initiator

direction_byte : (role : Role) → direction_for_role role < 256
direction_byte initiator = omega arith
direction_byte joiner = omega arith

direction_of_peer : (role : Role) → expected_peer_direction (peer_of role) ≡ direction_for_role role
unfolding peer_of
direction_of_peer initiator = refl
direction_of_peer joiner = refl

module _ {Key : Type 0} (aead : Aead Key) where
  encrypt_steps :
      (role : Role) (key : Key) (kind counter : ℕ) (plaintext nonce ciphertext frame : Bytes)
      → make_nonce (direction_for_role role) counter ≡ ok nonce
      → aead.aes_gcm_encrypt key nonce (aad_for kind) plaintext ≡ some ciphertext
      → encode_relay kind nonce ciphertext ≡ ok frame
      → encrypt_relay_frame aead role key kind counter plaintext ≡ some frame
  unfolding encrypt_relay_frame seal_with seal
  encrypt_steps role key kind counter plaintext nonce ciphertext frame made sealed encoded =
      rw made (rw sealed (rw encoded refl))

  decrypt_steps :
      (role : Role) (key : Key) (kind counter : ℕ) (plaintext nonce ciphertext : Bytes)
      → parse_nonce nonce
        ≡ ok (record {
          direction = direction_for_role role;
          counter = counter + 1;
          reserved_all_zero = true;
        })
      → aead.aes_gcm_decrypt key nonce (aad_for kind) ciphertext ≡ some plaintext
      → validate_and_decrypt_frame aead counter (peer_of role) key kind nonce ciphertext strict
        ≡ ok (accepted plaintext (counter + 1))
  unfolding validate_and_decrypt_frame decrypt_checked is_gap opened_frame
  decrypt_steps role key kind counter plaintext nonce ciphertext parsed opened =
      rw parsed (rw opened (ground (arith, direction_of_peer role)))

module _ {Key : Type 0} (aead : Aead Key) (law : AeadLaw Key aead) where
  -- A plaintext of any relay kind, of at most 8704 bytes, so that its frame is within the size of
  -- the wire, with a counter from 1 to the largest uint64: `encryptRelayFrame` does not throw, the
  -- client's decoder reads its frame as a RELAY frame of that kind, and the peer with the same key
  -- whose last counter is the one before, in strict mode, accepts it with that plaintext and counter.
  pub decrypt-encrypt_relay_frame :
      (role : Role) (key : Key) (kind counter : ℕ) (plaintext : Bytes)
      → is_relay_kind kind ≡ true
      → counter + 1 ≤ max_counter
      → length plaintext ≤ 8704
      → (frame : Bytes) × (f : Relay) × (encrypt_relay_frame aead role key kind
            (counter + 1)
            plaintext
          ≡ some frame)
        × (decode_server_frame frame ≡ some (ServerFrame.relay f))
        × (f.kind ≡ kind)
        × (validate_and_decrypt_frame aead counter
              (peer_of role)
              key
              kind
              f.nonce
              f.ciphertext
              strict
            ≡ ok (accepted plaintext (counter + 1)))
  decrypt-encrypt_relay_frame role key kind counter plaintext hk hc hp =
      let (nonce, made, length_nonce, parsed) =
        parse_nonce-make_nonce (direction_for_role role) (counter + 1) (direction_byte role)
          (omega arith) hc in
      let (ciphertext, sealed, length_ciphertext, opened) =
        law.decrypt_encrypt key nonce (aad_for kind) plaintext length_nonce (omega arith) in
      let f : Relay = record { kind = kind; nonce = nonce; ciphertext = ciphertext } in
      let (frame, encoded, decoded) =
        decode_server_frame-encode (ServerFrame.relay f)
          (hk, length_nonce, omega (arith, length_ciphertext)) in
      (
        frame,
        f,
        encrypt_steps aead role key kind (counter + 1) plaintext nonce ciphertext frame made sealed
            (unfold encode_server_frame in encoded),
        decoded,
        refl,
        decrypt_steps aead role key kind counter plaintext nonce ciphertext parsed opened,
      )
