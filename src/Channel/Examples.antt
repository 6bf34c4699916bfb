-- ===== src/Channel/Examples.antt =====
-- The theorems about the channel at concrete inputs, with a cipher that only adds 16 zero bytes.
use unseen_fyi.Prelude.{
  false, ℕ, ◌+◌, ◌-◌, ◌≡◌, refl, ap, true, some, List, [], ◌∷◌, ◌++◌, arith, replicate, length,
  take, take-append_of, length-append,
}
use unseen_fyi.Prelude.Result.{ok}
use unseen_fyi.Wire.Bytes.{Bytes}
use unseen_fyi.Wire.Codes.{initiator, joiner, is_relay_kind}
use unseen_fyi.Wire.Frames.{ServerFrame, Relay}
use unseen_fyi.Wire.Decode.{decode_server_frame}
use unseen_fyi.Channel.Nonce.{make_nonce, parse_nonce, parse_nonce-make_nonce}
use unseen_fyi.Channel.Send.{
  Aead, AeadLaw, SendCounters, present, encrypt_relay_frame, run_relay_send_task,
}
use unseen_fyi.Channel.Receive.{strict, first_gap_allowed, accepted, validate_and_decrypt_frame}
use unseen_fyi.Channel.Counters.{Increases, Life, allocated, reloaded, live, live-Increases}
use unseen_fyi.Channel.Replay.{Arrival, message, chunk, arrive_all, arrive_all-Increases}
use unseen_fyi.Channel.Task.{Outcome, run_relay_send_task-Outcome}
use unseen_fyi.Channel.RoundTrip.{peer_of, decrypt-encrypt_relay_frame}

abbrev example_aead : Aead ℕ
example_aead = record {
  aes_gcm_encrypt = λ key nonce aad plaintext. some (plaintext ++ replicate 16 0);
  aes_gcm_decrypt = λ key nonce aad ciphertext. some (take (length ciphertext - 16) ciphertext);
}

example_law : AeadLaw ℕ example_aead
example_law = record {
  decrypt_encrypt = λ key nonce aad plaintext h k. (
    plaintext ++ replicate 16 0,
    refl,
    length-append plaintext (replicate 16 0),
    ap some (
        take-append_of (length (plaintext ++ replicate 16 0) - 16) plaintext (replicate 16 0)
          (omega (arith, length-append plaintext (replicate 16 0)))),
  );
}

abbrev example_counters : SendCounters
example_counters = record { counter_committed = 3; counter_reserved = 3; stored = 3 }

abbrev example_lives : List Life
example_lives = allocated 1 ∷ allocated 0 ∷ reloaded ∷ allocated 0 ∷ []

live-Increases_example : Increases 3 (live (λ n. true) example_counters example_lives).1
live-Increases_example =
    live-Increases (λ n. true) example_counters example_lives (omega arith, omega arith)

abbrev example_nonce : Bytes
example_nonce = 1 ∷ 4 ∷ replicate 10 0

-- The same message twice, then a chunk.
abbrev example_arrivals : List Arrival
example_arrivals =
    message example_nonce (replicate 20 0) strict
    ∷ message example_nonce (replicate 20 0) strict
    ∷ chunk example_nonce (replicate 20 0) first_gap_allowed
    ∷ []

arrive_all-Increases_example :
    Increases 3
      (arrive_all example_aead (λ b. some b) (present (λ n. true)) joiner 0 3 example_arrivals).1
arrive_all-Increases_example =
    arrive_all-Increases example_aead (λ b. some b) (present (λ n. true)) joiner 0 3
      example_arrivals

example_is_kind : is_relay_kind 0 ≡ true
unfolding is_relay_kind
example_is_kind = refl

decrypt-encrypt_relay_frame_example :
    (frame : Bytes) × (f : Relay) × (encrypt_relay_frame example_aead initiator 0 0
        (6 + 1)
        (8 ∷ 9 ∷ [])
      ≡ some frame)
    × (decode_server_frame frame ≡ some (ServerFrame.relay f))
    × (f.kind ≡ 0)
    × (validate_and_decrypt_frame example_aead 6 (peer_of initiator) 0 0 f.nonce f.ciphertext strict
        ≡ ok (accepted (8 ∷ 9 ∷ []) (6 + 1)))
decrypt-encrypt_relay_frame_example =
    decrypt-encrypt_relay_frame example_aead example_law initiator 0 0 6 (8 ∷ 9 ∷ [])
      example_is_kind (omega arith) (omega arith)

parse_nonce-make_nonce_example :
    (nonce : Bytes) × (make_nonce 1 300 ≡ ok nonce)
    × (length nonce ≡ 12)
    × (parse_nonce nonce ≡ ok (record { direction = 1; counter = 300; reserved_all_zero = true }))
parse_nonce-make_nonce_example =
    parse_nonce-make_nonce 1 300 (omega arith) (omega arith) (omega arith)

run_relay_send_task-Outcome_example : Outcome example_aead initiator 0 0 (8 ∷ []) 3 (
    run_relay_send_task example_aead
      (present (λ n. true))
      example_counters
      false
      (some (record { ready_state = 1; buffered_amount = 0; send_throws = false }))
      initiator
      0
      0
      (8 ∷ [])
      "encrypt_failed")
run_relay_send_task-Outcome_example =
    run_relay_send_task-Outcome example_aead (present (λ n. true)) example_counters false
      (some (record { ready_state = 1; buffered_amount = 0; send_throws = false })) initiator 0 0
      (8 ∷ []) "encrypt_failed"
