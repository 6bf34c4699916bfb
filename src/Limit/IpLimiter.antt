-- ===== src/Limit/IpLimiter.antt =====
-- server/src/ratelimit/ip-limiter.ts. The counts are those of Limit/Bucket.antt.
use unseen_fyi.Prelude.{
  ℕ, ◌-◌, ◌*◌, Bool, true, false, [], ◌∷◌, Option, none, some, ltb, leb, length, if◌then◌else◌,
}
use unseen_fyi.Prelude.Dict.{Dict, get, set, delete}
use unseen_fyi.Prelude.Eq.{list_eq_instance}
use unseen_fyi.Limit.Bucket.{Limits, Bucket, token, refilled}
use unseen_fyi.Limit.IpKey.{Text, bucket_key}

pub data IpAction : Type 0 where
  connect new_room join_room health : IpAction

abbrev pub same_action : IpAction → IpAction → Bool
same_action connect connect = true
same_action new_room new_room = true
same_action join_room join_room = true
same_action health health = true
same_action _ _ = false

abbrev pub Buckets : Type 0
Buckets = Dict Text Bucket

abbrev pub IpLimiterConfig : Type 0
IpLimiterConfig = IpAction → Limits

-- DEFAULT_IP_LIMITS: each limit is refilled in a minute.
abbrev pub default_ip_limits : IpLimiterConfig
default_ip_limits connect = record { limit = 100; refill_per_min = 100 }
default_ip_limits new_room = record { limit = 10; refill_per_min = 10 }
default_ip_limits join_room = record { limit = 30; refill_per_min = 30 }
default_ip_limits health = record { limit = 60; refill_per_min = 60 }

abbrev pub idle_bucket_ttl_ms : ℕ
idle_bucket_ttl_ms = 600_000

abbrev pub max_buckets_per_map : ℕ
max_buckets_per_map = 50_000

-- The four maps of `createIpLimiter`.
abbrev pub IpLimiter : Type 0
IpLimiter = IpAction → Buckets

abbrev pub create_ip_limiter : IpLimiter
create_ip_limiter action = []

unfoldable pub with_map : IpLimiter → IpAction → Buckets → IpLimiter
with_map buckets action m other = if same_action action other then m else buckets other

-- map.delete(map.keys().next().value)
unfoldable pub drop_oldest : Buckets → Buckets
unfolding delete
drop_oldest [] = []
drop_oldest ((k, b) ∷ m) = delete ((k, b) ∷ m) k

-- A new key makes room first if the map is full.
unfoldable pub make_room : Buckets → Option Bucket → Buckets
unfolding drop_oldest
make_room m (some _) = m
make_room m none = if leb max_buckets_per_map (length m) then drop_oldest m else m

unfoldable pub available : Limits → Option Bucket → ℕ → ℕ
unfolding refilled
available limits none now = limits.limit * token
available limits (some bucket) now = refilled limits bucket now

-- `check` on the map of one action.
unfoldable pub check_map : Limits → Buckets → Text → ℕ → Buckets × Bool
unfolding make_room available get set
check_map limits m key now =
    let bucket = get m key in
    let m' = make_room m bucket in
    let tokens = available limits bucket now in
    if ltb tokens token
    then (set m' key (record { tokens = tokens; last_refill_ms = now }), false)
    else (set m' key (record { tokens = tokens - token; last_refill_ms = now }), true)

unfoldable pub check :
    (Text → ℕ) → IpLimiterConfig → IpLimiter → Text → IpAction → ℕ → IpLimiter × Bool
unfolding check_map with_map bucket_key
check is_ip limits buckets ip action now =
    let (m, allowed) = check_map (limits action) (buckets action) (bucket_key is_ip ip) now in
    (with_map buckets action m, allowed)

-- One pass of `gc` over a map.
unfoldable pub gc_map : ℕ → Buckets → Buckets
gc_map cutoff [] = []
gc_map cutoff ((k, b) ∷ m) =
    let rest = gc_map cutoff m in if ltb b.last_refill_ms cutoff then rest else (k, b) ∷ rest

-- A cutoff before 0 drops nothing, as one at 0 does.
unfoldable pub gc : IpLimiter → ℕ → IpLimiter
unfolding gc_map
gc buckets now action = gc_map (now - idle_bucket_ttl_ms) (buckets action)
