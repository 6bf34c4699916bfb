-- ===== src/Channel/Nonce.antt =====
-- client/src/domain/nonce.ts: a direction byte, the counter as a little-endian uint64, and three
-- reserved bytes.
use unseen_fyi.Prelude.{
  ℕ, zero, suc, ◌+◌, ◌*◌, ◌/◌, ◌%◌, ◌≤◌, ◌<◌, ◌≡◌, refl, ap, true, false, ◌++◌, Bool, not, ◌&&◌,
  ◌||◌, [], ◌∷◌, arith, length, drop, take, ltb, ◌==◌,
}
use unseen_fyi.Prelude.Result.{Result, ok, throw_if, ◌>>◌}
use unseen_fyi.Wire.Bytes.{Bytes, zeros, set_bytes, set_uint8, get_uint8}
use unseen_fyi.Wire.Codes.{Role, initiator, joiner}
use unseen_fyi.Wire.Frames.{nonce_length}

abbrev pub counter_le_offset : ℕ
counter_le_offset = 1

abbrev pub reserved_offset : ℕ
reserved_offset = 9

-- 2n ** 64n - 1n
abbrev pub max_counter : ℕ
max_counter = 18_446_744_073_709_551_615

abbrev pub direction_for_role : Role → ℕ
direction_for_role initiator = 1
direction_for_role joiner = 2

abbrev pub expected_peer_direction : Role → ℕ
expected_peer_direction initiator = 2
expected_peer_direction joiner = 1

-- The low `k` bytes of a number, the lowest first, and the number that bytes stand for.
abbrev pub le_bytes : ℕ → ℕ → Bytes
le_bytes zero n = []
le_bytes (suc k) n = (n % 256) ∷ le_bytes k (n / 256)

abbrev pub of_le_bytes : Bytes → ℕ
of_le_bytes [] = 0
of_le_bytes (b ∷ bs) = b + 256 * of_le_bytes bs

-- view.setBigUint64(offset, v, true)
unfoldable pub set_big_uint64 : Bytes → ℕ → ℕ → Bytes
unfolding set_bytes
set_big_uint64 buf i v = set_bytes buf i (le_bytes 8 v)

-- view.getBigUint64(offset, true)
abbrev pub get_big_uint64 : Bytes → ℕ → ℕ
get_big_uint64 buf i = of_le_bytes (take 8 (drop i buf))

unfoldable pub make_nonce : ℕ → ℕ → Result Bytes
unfolding set_uint8 set_big_uint64
make_nonce direction counter = do
  throw_if (ltb counter 1 || ltb max_counter counter) "counter must fit uint64 and be ≥ 1"
  ok (set_big_uint64 (set_uint8 (zeros nonce_length) 0 direction) counter_le_offset counter)

pub record NonceFields : Type 0 where
  pub direction : ℕ
  pub counter : ℕ
  pub reserved_all_zero : Bool

-- The loop over the three reserved bytes.
abbrev pub reserved_zero : Bytes → Bool
reserved_zero nonce =
    (get_uint8 nonce reserved_offset == 0)
    && (get_uint8 nonce (suc reserved_offset) == 0)
    && (get_uint8 nonce (suc (suc reserved_offset)) == 0)

unfoldable pub parse_nonce : Bytes → Result NonceFields
parse_nonce nonce = do
  throw_if (not (length nonce == nonce_length)) "nonce must be 12 bytes"
  ok (record {
    direction = get_uint8 nonce 0;
    counter = get_big_uint64 nonce counter_le_offset;
    reserved_all_zero = reserved_zero nonce;
  })

bound : ℕ → ℕ
bound zero = 1
bound (suc k) = 256 * bound k

of_le_bytes-le_bytes : (k n : ℕ) → n < bound k → of_le_bytes (le_bytes k n) ≡ n
unfolding bound
of_le_bytes-le_bytes zero n h = omega arith
of_le_bytes-le_bytes (suc k) n h =
    let below : n / 256 < bound k = omega arith in
    omega (arith, of_le_bytes-le_bytes k (n / 256) below)

abbrev nonce_bytes : ℕ → ℕ → Bytes
nonce_bytes direction counter = direction ∷ (le_bytes 8 counter ++ 0 ∷ 0 ∷ 0 ∷ [])

make_nonce-layout :
    (direction counter : ℕ)
    → direction < 256
    → 1 ≤ counter
    → counter ≤ max_counter
    → make_nonce direction counter ≡ ok (nonce_bytes direction counter)
unfolding make_nonce set_big_uint64 set_uint8 set_bytes
make_nonce-layout direction counter hd h1 hm =
    let byte : direction % 256 ≡ direction = omega arith in
    let low : ltb counter 1 ≡ false = ground arith in
    let high : ltb max_counter counter ≡ false = ground arith in rw low (rw high (rw byte refl))

parse_nonce_bytes :
    (direction counter : ℕ)
    → counter ≤ max_counter
    → parse_nonce (nonce_bytes direction counter)
      ≡ ok (record { direction = direction; counter = counter; reserved_all_zero = true })
unfolding parse_nonce bound
parse_nonce_bytes direction counter hm =
    ap (λ n. ok (record { direction = direction; counter = n; reserved_all_zero = true }))
      (of_le_bytes-le_bytes 8 counter (let h : counter < bound 8 = omega arith in h))

-- For a direction that is a byte and a counter from 1 to the largest uint64, `makeNonce` does not
-- throw, its nonce has 12 bytes, and `parseNonce` reads the direction, the counter and reserved
-- bytes that are zero from it.
pub parse_nonce-make_nonce :
    (direction counter : ℕ)
    → direction < 256
    → 1 ≤ counter
    → counter ≤ max_counter
    → (nonce : Bytes) × (make_nonce direction counter ≡ ok nonce)
      × (length nonce ≡ 12)
      × (parse_nonce nonce
          ≡ ok (record { direction = direction; counter = counter; reserved_all_zero = true }))
parse_nonce-make_nonce direction counter hd h1 hm = (
  nonce_bytes direction counter,
  make_nonce-layout direction counter hd h1 hm,
  refl,
  parse_nonce_bytes direction counter hm,
)
