-- ===== src/Relay/Relief.antt =====
-- server/src/memory-pressure.ts: the handler of the runtime's memory pressure events. `relieve` and
-- the log are the caller's; what is kept is when they run.
use unseen_fyi.Prelude.{
  ℕ, ◌+◌, ◌≤◌, Bool, true, false, Option, none, some, List, [], ◌∷◌, arith, ltb, if◌then◌else◌,
}

abbrev pub relief_min_interval_ms : ℕ
relief_min_interval_ms = 1000

-- none: `lastReliefAt` is still -Infinity.
abbrev pub too_soon : Option ℕ → ℕ → Bool
too_soon none now = false
too_soon (some last_relief_at) now = ltb now (last_relief_at + relief_min_interval_ms)

-- `lastReliefAt` after the event, and whether `relieve` was called.
unfoldable pub handle_pressure : Option ℕ → ℕ → Option ℕ × Bool
handle_pressure last_relief_at now =
    if too_soon last_relief_at now then (last_relief_at, false) else (some now, true)

-- The times of the events at which `relieve` is called.
unfoldable pub relieved : Option ℕ → List ℕ → List ℕ
unfolding handle_pressure
relieved last_relief_at [] = []
relieved last_relief_at (now ∷ times) =
    let (next, called) = handle_pressure last_relief_at now in
    let later = relieved next times in if called then now ∷ later else later

-- Each time is at least the interval after the one before it.
abbrev pub Spaced : Option ℕ → List ℕ → Type 0
Spaced before [] = Unit {0}
Spaced none (now ∷ times) = Spaced (some now) times
Spaced (some before) (now ∷ times) =
    (before + relief_min_interval_ms ≤ now) × Spaced (some now) times

-- Whenever the runtime reports memory pressure, two calls of `relieve` are at least a second apart.
pub relieved-Spaced :
    (last_relief_at : Option ℕ) (times : List ℕ)
    → Spaced last_relief_at (relieved last_relief_at times)
unfolding relieved handle_pressure
relieved-Spaced last_relief_at [] = tt
relieved-Spaced none (now ∷ times) = relieved-Spaced (some now) times
relieved-Spaced (some before) (now ∷ times) =
    ground (arith, relieved-Spaced (some now) times, relieved-Spaced (some before) times)
