-- ===== src/Limit/IpKey.antt =====
-- The key of a bucket in server/src/ratelimit/ip-limiter.ts: an IPv6 address counts by its /64.
-- Text is the list of its character codes. `isIP` of node:net is a parameter.
use unseen_fyi.Prelude.{
  ℕ, ◌+◌, ◌-◌, ◌&&◌, List, [], ◌∷◌, ◌++◌, map, leb, ◌==◌, if◌then◌else◌, contains, replicate, take,
}
use mathlib.Core.List.{foldl}

abbrev pub Text : Type 0
Text = List ℕ

-- toLowerCase() on the letters that an address can hold.
lower : ℕ → ℕ
lower c = if leb b'A' c && leb c b'Z' then c + 32 else c

-- Puts a character before the first piece.
push : ℕ → List Text → List Text
push c [] = (c ∷ []) ∷ []
push c (p ∷ ps) = (c ∷ p) ∷ ps

-- text.split(':')
unfoldable pub split_colon : Text → List Text
unfolding push
split_colon [] = [] ∷ []
split_colon (c ∷ t) = let rest = split_colon t in if c == b':' then [] ∷ rest else push c rest

-- text.split('::')
unfoldable pub split_double : Text → List Text
unfolding push
split_double [] = [] ∷ []
split_double (c ∷ []) = (c ∷ []) ∷ []
split_double (c ∷ d ∷ t) =
    let after = [] ∷ split_double t in
    let inside = push c (split_double (d ∷ t)) in if c == b':' && d == b':' then after else inside

-- texts.join(':')
unfoldable pub join_colon : List Text → Text
join_colon [] = []
join_colon (t ∷ []) = t
join_colon (t ∷ u ∷ us) = t ++ b':' ∷ join_colon (u ∷ us)

-- group.replace(/^0+(?=.)/u, '')
unfoldable pub strip_zeros : Text → Text
strip_zeros [] = []
strip_zeros (c ∷ []) = c ∷ []
strip_zeros (c ∷ d ∷ t) = let rest = strip_zeros (d ∷ t) in if c == b'0' then rest else c ∷ d ∷ t

unfoldable pub group_span : List Text → ℕ
group_span groups = foldl (λ total group. total + (if contains group b'.' then 2 else 1)) 0 groups

-- text === '' ? [] : text.split(':')
groups_of : Text → List Text
unfolding split_colon
groups_of [] = []
groups_of (c ∷ t) = split_colon (c ∷ t)

-- The pieces of `split('::', 2)`: without a second piece no group was left out.
expand : List Text → List Text
unfolding groups_of group_span
expand [] = []
expand (head ∷ []) = groups_of head
expand (head ∷ tail ∷ _) =
    let left = groups_of head in
    let right = groups_of tail in
    left ++ (replicate (8 - group_span left - group_span right) (b'0' ∷ []) ++ right)

unfoldable pub ipv6_prefix64 : Text → Text
unfolding lower split_double expand join_colon strip_zeros
ipv6_prefix64 ip =
    let groups = expand (split_double (map lower ip)) in
    join_colon (map strip_zeros (take 4 groups)) ++ b':' ∷ b':' ∷ b'/' ∷ b'6' ∷ b'4' ∷ []

unfoldable pub bucket_key : (Text → ℕ) → Text → Text
unfolding ipv6_prefix64
bucket_key is_ip ip = if is_ip ip == 6 then ipv6_prefix64 ip else ip
