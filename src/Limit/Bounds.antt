-- ===== src/Limit/Bounds.antt =====
-- What the limiter of IP addresses promises: bounded maps, bounded buckets, separate clients.
use unseen_fyi.Prelude.{
  ℕ, ◌+◌, ◌-◌, ◌≤◌, ◌<◌, ◌≡◌, ◌≢◌, ◌⊎◌, inl, inr, refl, ap, ◌∙◌, true, Option, none, some, [], ◌∷◌,
  arith, length, ltb, leb, if◌then◌else◌, Bool-cases,
}
use unseen_fyi.Prelude.Dict.{
  get, set, delete, get-set, length-set_new, length-set_old, length-delete,
}
use unseen_fyi.Prelude.Eq.{list_eq_instance}
use unseen_fyi.Limit.Bucket.{
  Limits, Bucket, token, refilled, create_relay_bucket, consume_relay_token,
}
use unseen_fyi.Limit.IpKey.{Text, bucket_key}
use unseen_fyi.Limit.IpLimiter.{
  IpAction, same_action, with_map, Buckets, IpLimiter, IpLimiterConfig, max_buckets_per_map,
  drop_oldest, make_room, available, check_map, check,
}

-- A map within `max_buckets_per_map` entries has room for one more, once room was made.
length-make_room :
    (m : Buckets)
    → length m ≤ max_buckets_per_map
    → length (make_room m none) + 1 ≤ max_buckets_per_map
unfolding make_room drop_oldest delete
length-make_room [] h = ground arith
length-make_room ((k, b) ∷ m) h = ground (arith, list_eq_instance.beq_iff k k, length-delete m k)

-- Setting the key of a check, after room was made.
length-set_room :
    (m : Buckets) (key : Text) (b : Bucket) (found : Option Bucket)
    → get m key ≡ found
    → length m ≤ max_buckets_per_map
    → length (set (make_room m found) key b) ≤ max_buckets_per_map
length-set_room m key b none e h =
    omega (arith, length-set_new (make_room m none) key b, length-make_room m h)
length-set_room m key b (some old) e h =
    unfold make_room in omega (arith, length-set_old m key b (λ k. cc (e, k)))

-- What a check stores, and what it answers.
check_map-stores :
    (limits : Limits) (m : Buckets) (key : Text) (now : ℕ)
    → (b : Bucket) × ((check_map limits m key now).0 ≡ set (make_room m (get m key)) key b)
      × (b.last_refill_ms ≡ now)
      × ((check_map limits m key now).1 ≡ leb token (available limits (get m key) now))
      × (b.tokens + (if (check_map limits m key now).1 then token else 0)
          ≡ available limits (get m key) now)
unfolding check_map
check_map-stores limits m key now = (
  record { tokens = if ltb t token then t else t - token; last_refill_ms = now },
  ground arith,
  refl,
  ground arith,
  ground arith,
)
  where
    t : ℕ
    t = available limits (get m key) now

-- A check leaves a map within `max_buckets_per_map` entries, if it was.
check_map-length :
    (limits : Limits) (m : Buckets) (key : Text) (now : ℕ)
    → length m ≤ max_buckets_per_map
    → length (check_map limits m key now).0 ≤ max_buckets_per_map
check_map-length limits m key now h =
    let (b, stored, at, allowed, left) = check_map-stores limits m key now in
    rw stored (length-set_room m key b (get m key) refl h)

get-make_room :
    (m : Buckets) (found : Option Bucket) (other : Text)
    → length m < max_buckets_per_map
    → get (make_room m found) other ≡ get m other
unfolding make_room
get-make_room m none other h = ground arith
get-make_room m (some b) other h = refl

-- A check of one key, in a map that is not full, leaves the bucket of any other key as it was.
check_map-others :
    (limits : Limits) (m : Buckets) (key other : Text) (now : ℕ)
    → key ≢ other
    → length m < max_buckets_per_map
    → get (check_map limits m key now).0 other ≡ get m other
check_map-others limits m key other now apart h =
    let (b, stored, at, allowed, left) = check_map-stores limits m key now in
    rw stored (
      ground (
        arith,
        get-set (make_room m (get m key)) key other b,
        list_eq_instance.beq_iff key other,
        get-make_room m (get m key) other h,
      ))

-- The bucket of a key: the one in the map, or a full one.
unfoldable pub bucket_of : Limits → Option Bucket → ℕ → Bucket
bucket_of limits none now = create_relay_bucket limits now
bucket_of limits (some bucket) now = bucket

available-refilled :
    (limits : Limits) (found : Option Bucket) (now : ℕ)
    → available limits found now ≡ refilled limits (bucket_of limits found now) now
unfolding available refilled bucket_of create_relay_bucket
available-refilled limits none now = omega arith
available-refilled limits (some bucket) now = refl

stored_bucket :
    (m : Buckets) (key : Text) (tokens now : ℕ)
    → get (set m key (record { tokens = tokens; last_refill_ms = now })) key
      ≡ some (record { tokens = tokens; last_refill_ms = now })
stored_bucket m key tokens now = ground (
  arith,
  get-set m key key (record { tokens = tokens; last_refill_ms = now }),
  list_eq_instance.beq_iff key key,
)

check_map_is_bucket :
    (limits : Limits) (m : Buckets) (key : Text) (now : ℕ)
    → let old = bucket_of limits (get m key) now in
      (get (check_map limits m key now).0 key ≡ some (consume_relay_token old limits now).0)
      × ((check_map limits m key now).1 ≡ (consume_relay_token old limits now).1)
unfolding check_map consume_relay_token
check_map_is_bucket limits m key now =
    let t : ℕ = refilled limits (bucket_of limits (get m key) now) now in
    let m' : Buckets = make_room m (get m key) in
    rw (available-refilled limits (get m key) now)
      (ground (arith, stored_bucket m' key t now, stored_bucket m' key (t - token) now))

same_action_refl : (a : IpAction) → same_action a a ≡ true
same_action_refl a = ground arith

same_action_eq : (a b : IpAction) → same_action a b ≡ true → a ≡ b
same_action_eq a b h = ground arith

-- For every client address, action and time, whatever the limiter holds: the bucket of the client's
-- key after the check, and the answer, are those of a relay bucket that is asked at that time, a new
-- key starting with a full one. So a client's allowance is that of one token bucket.
pub check_is_bucket :
    (is_ip : Text → ℕ) (config : IpLimiterConfig) (buckets : IpLimiter) (ip : Text)
    (action : IpAction) (now : ℕ)
    → let key = bucket_key is_ip ip in
      let old = bucket_of (config action) (get (buckets action) key) now in
      (get ((check is_ip config buckets ip action now).0 action) key
        ≡ some (consume_relay_token old (config action) now).0)
      × ((check is_ip config buckets ip action now).1
          ≡ (consume_relay_token old (config action) now).1)
unfolding check with_map
check_is_bucket is_ip config buckets ip action now =
    rw (same_action_refl action)
      (check_map_is_bucket (config action) (buckets action) (bucket_key is_ip ip) now)

-- From maps within `max_buckets_per_map` entries, a check of any address and action leaves all four
-- maps within it.
pub check-length :
    (is_ip : Text → ℕ) (config : IpLimiterConfig) (buckets : IpLimiter) (ip : Text)
    (action : IpAction) (now : ℕ)
    → ((a : IpAction) → length (buckets a) ≤ max_buckets_per_map)
    → (a : IpAction) → length ((check is_ip config buckets ip action now).0 a) ≤ max_buckets_per_map
unfolding check with_map
check-length is_ip config buckets ip action now h a =
    let m : Buckets = buckets action in
    ground (arith, check_map-length (config action) m (bucket_key is_ip ip) now (h action), h a)

-- While the map of the action is not full, a check leaves alone every bucket of another key (another
-- address, or another /64 of IPv6), and every bucket of the other actions.
pub check_isolated :
    (is_ip : Text → ℕ) (config : IpLimiterConfig) (buckets : IpLimiter) (ip : Text)
    (action : IpAction) (now : ℕ) (other : Text) (a : IpAction)
    → length (buckets action) < max_buckets_per_map
    → (bucket_key is_ip ip ≢ other) ⊎ (action ≢ a)
    → get ((check is_ip config buckets ip action now).0 a) other ≡ get (buckets a) other
unfolding check with_map
check_isolated is_ip config buckets ip action now other a room (inr apart) =
    ground (arith, same_action_eq action a)
check_isolated is_ip config buckets ip action now other a room (inl apart) =
    let kept =
      check_map-others (config action) (buckets action) (bucket_key is_ip ip) other now apart
        room in
    elim (Bool-cases (same_action action a))
      as (λ _.
        get
          (with_map buckets action
            (check_map (config action) (buckets action) (bucket_key is_ip ip) now).0 a)
          other
        ≡ get (buckets a) other) [
          | inl e ↦ rw e (kept ∙ ap (λ x. get (buckets x) other) (same_action_eq action a e))
          | inr e ↦ rw e refl
        ]
