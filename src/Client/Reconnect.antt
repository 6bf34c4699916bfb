-- ===== src/Client/Reconnect.antt =====
-- client/src/transport/reconnect.ts. Attempts and times are natural numbers, so the RangeError is
-- never met.
use unseen_fyi.Prelude.{
  ℕ, zero, suc, ◌+◌, ◌-◌, ◌≤◌, ◌≡◌, ◌⊎◌, refl, Option, none, some, List, [], ◌∷◌, arith, length,
  get_elem?, min, leb, if◌then◌else◌,
}

abbrev pub backoff_schedule_ms : List ℕ
backoff_schedule_ms = 1000 ∷ 2000 ∷ 4000 ∷ 8000 ∷ 16_000 ∷ 30_000 ∷ 60_000 ∷ []

abbrev pub reconnect_cumulative_cap_ms : ℕ
reconnect_cumulative_cap_ms = 300_000

-- The candidate, if there is one, cut to what remains.
abbrev pub capped : Option ℕ → ℕ → Option ℕ
capped none remaining = none
capped (some candidate) remaining = some (min candidate remaining)

unfoldable pub next_reconnect_delay_ms : ℕ → ℕ → Option ℕ
next_reconnect_delay_ms attempt elapsed =
    if leb reconnect_cumulative_cap_ms elapsed
    then none
    else (let index = min attempt (length backoff_schedule_ms - 1) in
        capped (get_elem? backoff_schedule_ms index) (reconnect_cumulative_cap_ms - elapsed))

-- The index never leaves the schedule.
schedule_entry :
    (attempt : ℕ)
    → (d : ℕ) × (get_elem? backoff_schedule_ms (min attempt 6) ≡ some d) × (1000 ≤ d) × (d ≤ 60_000)
schedule_entry zero = (1000, refl, omega arith, omega arith)
schedule_entry (suc zero) = (2000, refl, omega arith, omega arith)
schedule_entry (suc (suc zero)) = (4000, refl, omega arith, omega arith)
schedule_entry (suc (suc (suc zero))) = (8000, refl, omega arith, omega arith)
schedule_entry (suc (suc (suc (suc zero)))) = (16_000, refl, omega arith, omega arith)
schedule_entry (suc (suc (suc (suc (suc zero))))) = (30_000, refl, omega arith, omega arith)
schedule_entry (suc (suc (suc (suc (suc (suc n)))))) =
    let last : min (suc (suc (suc (suc (suc (suc n)))))) 6 ≡ 6 = omega arith in
    (60_000, rw last refl, omega arith, omega arith)

-- For every attempt and every time that has passed: there is no further delay exactly when the
-- cumulative cap of five minutes has been reached, and a delay is positive, at most a minute, and
-- does not go beyond the cap.
pub next_reconnect_delay_ms_capped :
    (attempt elapsed : ℕ)
    → ((next_reconnect_delay_ms attempt elapsed ≡ none) × (reconnect_cumulative_cap_ms ≤ elapsed))
      ⊎ ((d : ℕ) × (next_reconnect_delay_ms attempt elapsed ≡ some d)
          × (1 ≤ d)
          × (d ≤ 60_000)
          × (elapsed + d ≤ reconnect_cumulative_cap_ms))
unfolding next_reconnect_delay_ms
next_reconnect_delay_ms_capped attempt elapsed =
    let (d, entry, low, high) = schedule_entry attempt in rw entry (ground (arith, low, high))
