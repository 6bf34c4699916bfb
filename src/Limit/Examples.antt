-- ===== src/Limit/Examples.antt =====
-- The theorems about the limits at concrete inputs.
use unseen_fyi.Prelude.{ℕ, ◌+◌, ◌*◌, ◌-◌, ◌≤◌, ◌≡◌, refl, inl, some, [], ◌∷◌, arith, length}
use unseen_fyi.Prelude.Dict.{get}
use unseen_fyi.Prelude.Eq.{list_eq_instance}
use unseen_fyi.Limit.Bucket.{Bucket, default_relay_bucket, token, consume_relay_token}
use unseen_fyi.Limit.Rate.{consume_all, consume_all_bounded}
use unseen_fyi.Limit.IpKey.{Text, bucket_key}
use unseen_fyi.Limit.IpLimiter.{
  connect, health, IpLimiter, default_ip_limits, create_ip_limiter, max_buckets_per_map, check,
}
use unseen_fyi.Limit.Bounds.{bucket_of, check_is_bucket, check-length, check_isolated}

abbrev example_bucket : Bucket
example_bucket = record { tokens = 90_000; last_refill_ms = 10 }

consume_all_bounded_example :
    (consume_all default_relay_bucket example_bucket (10 ∷ 12 ∷ [])).1 * token
      + (consume_all default_relay_bucket example_bucket (10 ∷ 12 ∷ [])).0.tokens
    ≤ 90_000 + (12 - 10) * 12_000
consume_all_bounded_example =
    consume_all_bounded default_relay_bucket example_bucket (10 ∷ 12 ∷ []) (omega arith)

abbrev is_ip : Text → ℕ
is_ip ip = 4

check_is_bucket_example :
    (get
        ((check is_ip default_ip_limits create_ip_limiter (8 ∷ []) connect 5).0 connect)
        (bucket_key is_ip (8 ∷ []))
      ≡ some
          (consume_relay_token
            (bucket_of (default_ip_limits connect) (get [] (bucket_key is_ip (8 ∷ []))) 5)
            (default_ip_limits connect)
            5).0)
    × ((check is_ip default_ip_limits create_ip_limiter (8 ∷ []) connect 5).1
        ≡ (consume_relay_token
            (bucket_of (default_ip_limits connect) (get [] (bucket_key is_ip (8 ∷ []))) 5)
            (default_ip_limits connect)
            5).1)
check_is_bucket_example =
    check_is_bucket is_ip default_ip_limits create_ip_limiter (8 ∷ []) connect 5

check-length_example :
    length ((check is_ip default_ip_limits create_ip_limiter (8 ∷ []) connect 5).0 health)
    ≤ max_buckets_per_map
check-length_example =
    check-length is_ip default_ip_limits create_ip_limiter (8 ∷ []) connect 5 (λ a. omega arith)
      health

example_key : bucket_key is_ip (8 ∷ []) ≡ 8 ∷ []
unfolding bucket_key
example_key = refl

-- Each map has a bucket of another address.
abbrev example_limiter : IpLimiter
example_limiter action = (9 ∷ [], example_bucket) ∷ []

check_isolated_example :
    get ((check is_ip default_ip_limits example_limiter (8 ∷ []) connect 5).0 connect) (9 ∷ [])
    ≡ some example_bucket
unfolding get
check_isolated_example =
    check_isolated is_ip default_ip_limits example_limiter (8 ∷ []) connect 5 (9 ∷ []) connect
      (omega arith) (inl (λ e. ground (arith, example_key)))
