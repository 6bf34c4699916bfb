-- ===== src/Limit/Bucket.antt =====
-- server/src/ratelimit/relay-bucket.ts, and the refill that ip-limiter.ts computes the same way.
-- Tokens are counted in units of 1/60000, time in milliseconds and rates in tokens per minute, so
-- that `elapsedSec * refillPerSec` is `elapsed * refill_per_min` units, with no rounding.
use unseen_fyi.Prelude.{ℕ, ◌+◌, ◌-◌, ◌*◌, min, Bool, true, false, ltb, if◌then◌else◌}

abbrev pub token : ℕ
token = 60_000

pub record Limits : Type 0 where
  pub limit : ℕ
  pub refill_per_min : ℕ

pub record Bucket : Type 0 where
  pub tokens : ℕ
  pub last_refill_ms : ℕ

-- DEFAULT_RELAY_BUCKET: 2000 tokens, 200 more each second.
abbrev pub default_relay_bucket : Limits
default_relay_bucket = record { limit = 2000; refill_per_min = 12_000 }

-- Math.min(limit, tokens + elapsedSec * refillPerSec)
unfoldable pub refilled : Limits → Bucket → ℕ → ℕ
refilled config bucket now =
    min (config.limit * token)
      (bucket.tokens + (now - bucket.last_refill_ms) * config.refill_per_min)

unfoldable pub create_relay_bucket : Limits → ℕ → Bucket
create_relay_bucket config now = record { tokens = config.limit * token; last_refill_ms = now }

unfoldable pub consume_relay_token : Bucket → Limits → ℕ → Bucket × Bool
unfolding refilled
consume_relay_token bucket config now =
    let tokens = refilled config bucket now in
    if ltb tokens token
    then (record { tokens = tokens; last_refill_ms = now }, false)
    else (record { tokens = tokens - token; last_refill_ms = now }, true)
