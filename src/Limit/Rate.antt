-- ===== src/Limit/Rate.antt =====
-- How many frames a relay bucket lets through.
use unseen_fyi.Prelude.{subst, sym, ℕ, ◌+◌, ◌-◌, ◌*◌, ◌≤◌, ◌≡◌, List, [], ◌∷◌, arith, if◌then◌else◌}
use unseen_fyi.Limit.Bucket.{Limits, Bucket, token, refilled, consume_relay_token}

-- The bucket after calls at these times, and how many of them were let through.
unfoldable pub consume_all : Limits → Bucket → List ℕ → Bucket × ℕ
consume_all config bucket [] = (bucket, 0)
consume_all config bucket (now ∷ times) =
    let (bucket', allowed) = consume_relay_token bucket config now in
    let (last, passed) = consume_all config bucket' times in
    (last, if allowed then passed + 1 else passed)

-- The times do not run backwards.
abbrev pub Ascends : ℕ → List ℕ → Type 0
Ascends from [] = Unit {0}
Ascends from (now ∷ times) = (from ≤ now) × Ascends now times

abbrev pub last_time : ℕ → List ℕ → ℕ
last_time from [] = from
last_time from (now ∷ times) = last_time now times

from-le-last_time : (from : ℕ) (times : List ℕ) → Ascends from times → from ≤ last_time from times
from-le-last_time from [] h = omega arith
from-le-last_time from (now ∷ times) h = omega (arith, from-le-last_time now times h.1)

split_time : (a b c r : ℕ) → a ≤ b → b ≤ c → (c - a) * r ≡ (c - b) * r + (b - a) * r
split_time a b c r h k = let e : c - a ≡ (c - b) + (b - a) = omega arith in rw e (omega arith)

-- One call: what is left, with what was spent, is at most what was there and what came since.
consume_step :
    (config : Limits) (bucket : Bucket) (now : ℕ)
    → let (bucket', allowed) = consume_relay_token bucket config now in
      ((if allowed then token else 0) + bucket'.tokens
        ≤ bucket.tokens + (now - bucket.last_refill_ms) * config.refill_per_min)
      × (bucket'.last_refill_ms ≡ now)
unfolding consume_relay_token refilled
consume_step config bucket now = ground arith

-- However often and whenever a bucket is asked, with a clock that does not run backwards: the tokens
-- of the calls that are let through, and those that are left, are at most those that the bucket had
-- and those that were refilled from its last refill to the last call.
pub consume_all_bounded :
    (config : Limits) (bucket : Bucket) (times : List ℕ)
    → Ascends bucket.last_refill_ms times
    → (consume_all config bucket times).1 * token + (consume_all config bucket times).0.tokens
      ≤ bucket.tokens
        + (last_time bucket.last_refill_ms times - bucket.last_refill_ms) * config.refill_per_min
unfolding consume_all
consume_all_bounded config bucket [] h = omega arith
consume_all_bounded config bucket (now ∷ times) h =
    let (bucket', allowed) = consume_relay_token bucket config now in
    let (spent, at_now) = consume_step config bucket now in
    let later : Ascends bucket'.last_refill_ms times =
      subst (λ t. Ascends t times) (sym at_now) h.1 in
    let bound = consume_all_bounded config bucket' times later in
    let bound' : (consume_all config bucket' times).1 * token
          + (consume_all config bucket' times).0.tokens
        ≤ bucket'.tokens + (last_time now times - now) * config.refill_per_min =
      subst
        (λ t.
          (consume_all config bucket' times).1 * token + (consume_all config bucket' times).0.tokens
          ≤ bucket'.tokens + (last_time t times - t) * config.refill_per_min)
        at_now bound in
    ground (
      arith,
      spent,
      bound',
      from-le-last_time now times h.1,
      split_time bucket.last_refill_ms now (last_time now times) config.refill_per_min h.0,
    )
