-- ===== src/Channel/Task.antt =====
-- What a send task does, on all its ways.
use unseen_fyi.Prelude.{
  ℕ, ◌+◌, ◌≡◌, refl, ap, sym, Bool-cases, inl, inr, ◌⊎◌, Bool, true, false, not, Option, none, some,
  String, arith, if◌then◌else◌,
}
use unseen_fyi.Wire.Bytes.{Bytes}
use unseen_fyi.Wire.Codes.{Role}
use unseen_fyi.Channel.Send.{
  Aead, Persist, absent, present, SendCounters, Socket, Sent, reserve, commit, commit_reserved,
  allocate_counter, can_attempt_send, is_sendable, hand_over, encrypt_relay_frame, attempt,
  run_relay_send_task,
}

-- An allocation gives the counter that it commits, the one after the last, or changes nothing.
allocate_commits :
    (persist : Persist) (state : SendCounters) (kind : ℕ)
    → let (state', counter) = allocate_counter persist state kind in
      ((counter ≡ none) × (state' ≡ state))
      ⊎ ((counter ≡ some state'.counter_committed)
          × (state'.counter_committed ≡ state.counter_committed + 1))
unfolding allocate_counter commit_reserved commit reserve
allocate_commits absent state kind = ground arith
allocate_commits (present returns) state kind = ground arith

module _ {Key : Type 0} (aead : Aead Key) where
  -- No frame, or the frame of the plaintext under the counter that was committed.
  abbrev pub Outcome : Role → Key → ℕ → Bytes → ℕ → Sent → Type 0
  Outcome role key kind plaintext committed sent =
      ((sent.returned ≡ false) × (sent.frame ≡ none))
      ⊎ ((sent.returned ≡ true)
          × (sent.terminated ≡ none)
          × (sent.counters.counter_committed ≡ committed + 1)
          × (frame : Bytes) × (sent.frame ≡ some frame)
          × (encrypt_relay_frame aead role key kind sent.counters.counter_committed plaintext
              ≡ some frame))

  module _ (role : Role) (key : Key) (kind : ℕ) (plaintext : Bytes) (committed : ℕ) where
    hand_over-Outcome :
        (ws : Socket) (state : SendCounters) (reason : String) (frame : Option Bytes)
        → frame ≡ encrypt_relay_frame aead role key kind state.counter_committed plaintext
        → state.counter_committed ≡ committed + 1
        → Outcome role key kind plaintext committed (hand_over aead ws state reason frame)
    unfolding hand_over
    hand_over-Outcome ws state reason none e g = inl (refl, refl)
    hand_over-Outcome ws state reason (some frame) e g =
        elim (Bool-cases ws.send_throws)
          as (λ _.
            Outcome role key kind plaintext committed
              (hand_over aead ws state reason (some frame))) [
                | inl throws ↦ rw throws (inl (refl, refl))
                | inr fine ↦ rw fine (inr (refl, refl, g, frame, refl, sym e))
              ]

    attempt-Outcome :
        (ws : Socket) (old state : SendCounters) (reason : String) (counter : Option ℕ)
        → ((counter ≡ none) × (state ≡ old))
          ⊎ ((counter ≡ some state.counter_committed) × (state.counter_committed ≡ committed + 1))
        → Outcome role key kind plaintext committed
            (attempt aead ws role key kind plaintext reason (state, counter))
    unfolding attempt
    attempt-Outcome ws old state reason none h = inl (refl, refl)
    attempt-Outcome ws old state reason (some c) (inl (e, g)) = absurd (cc e)
    attempt-Outcome ws old state reason (some c) (inr (e, g)) =
        hand_over-Outcome ws state reason _
          (let at : c ≡ state.counter_committed = cc e in
            ap (λ n. encrypt_relay_frame aead role key kind n plaintext) at)
          g

  -- Whatever the state, the socket and the store are like, a task does one of two things: it returns
  -- false and hands no frame over; or it returns true, terminates nothing, and has handed over the
  -- frame of its plaintext under the counter that it committed, the one after the last.
  pub run_relay_send_task-Outcome :
      (persist : Persist) (state : SendCounters) (terminated : Bool) (connection : Option Socket)
      (role : Role) (key : Key) (kind : ℕ) (plaintext : Bytes) (reason : String)
      → Outcome role key kind plaintext state.counter_committed (
          run_relay_send_task aead persist state terminated connection role key kind plaintext
            reason)
  unfolding run_relay_send_task
  run_relay_send_task-Outcome persist state true connection role key kind plaintext reason =
      inl (refl, refl)
  run_relay_send_task-Outcome persist state false none role key kind plaintext reason =
      inl (refl, refl)
  run_relay_send_task-Outcome persist state false (some ws) role key kind plaintext reason =
      let (state', counter) = allocate_counter persist state kind in
      let tried =
        attempt-Outcome role key kind plaintext state.counter_committed ws state state' reason
          counter (allocate_commits persist state kind) in
      refused_or (not (is_sendable aead (can_attempt_send ws))) _ _ tried refl refl
    where
      refused_or :
          (b : Bool) (x y : Sent)
          → Outcome role key kind plaintext state.counter_committed y
          → x.returned ≡ false
          → x.frame ≡ none
          → Outcome role key kind plaintext state.counter_committed (if b then x else y)
      refused_or true x y h r f = inl (r, f)
      refused_or false x y h r f = h
