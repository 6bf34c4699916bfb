-- ===== src/Wire/Bytes.antt =====
-- The parts of `ArrayBuffer`, `Uint8Array` and `DataView` that shared/src/wire/codec.ts uses.
-- A buffer is the list of its bytes. Every caller checks the length before it reads or writes, so
-- what a read or a write beyond the end does (a RangeError) is never met: here a read gives 0 and a
-- write is cut off.
use unseen_fyi.Prelude.{
  ℕ, zero, suc, ◌+◌, ◌-◌, ◌*◌, ◌/◌, ◌%◌, ◌<◌, ◌≡◌, refl, sym, ap, ◌∙◌, List, [], ◌∷◌, ◌++◌, arith,
  length, get_or, take, drop, replicate,
}
use mathlib.Core.List.{append-nil}

abbrev pub Bytes : Type 0
Bytes = List ℕ

abbrev pub IsByte : ℕ → Type 0
IsByte b = b < 256

-- new ArrayBuffer(n)
abbrev pub zeros : ℕ → Bytes
zeros n = replicate n 0

abbrev pub overlay : Bytes → Bytes → Bytes
overlay [] buf = buf
overlay (x ∷ xs) [] = []
overlay (x ∷ xs) (b ∷ buf) = x ∷ overlay xs buf

-- bytes.set(xs, offset)
unfoldable pub set_bytes : Bytes → ℕ → Bytes → Bytes
set_bytes buf zero xs = overlay xs buf
set_bytes [] (suc i) xs = []
set_bytes (b ∷ buf) (suc i) xs = b ∷ set_bytes buf i xs

-- view.setUint8(offset, v)
unfoldable pub set_uint8 : Bytes → ℕ → ℕ → Bytes
unfolding set_bytes
set_uint8 buf i v = set_bytes buf i ((v % 256) ∷ [])

-- view.setUint16(offset, v, true)
unfoldable pub set_uint16 : Bytes → ℕ → ℕ → Bytes
unfolding set_bytes
set_uint16 buf i v = set_bytes buf i ((v % 256) ∷ (v / 256 % 256) ∷ [])

-- view.setUint32(offset, v, true)
unfoldable pub set_uint32 : Bytes → ℕ → ℕ → Bytes
unfolding set_bytes
set_uint32 buf i v =
    set_bytes buf i ((v % 256) ∷ (v / 256 % 256) ∷ (v / 65536 % 256) ∷ (v / 16777216 % 256) ∷ [])

abbrev pub get_uint8 : Bytes → ℕ → ℕ
get_uint8 buf i = get_or buf i 0

-- view.getUint16(offset, true)
abbrev pub get_uint16 : Bytes → ℕ → ℕ
get_uint16 buf i = get_or buf i 0 + 256 * get_or buf (suc i) 0

-- view.getUint32(offset, true)
abbrev pub get_uint32 : Bytes → ℕ → ℕ
get_uint32 buf i =
    get_or buf i 0
    + 256 * get_or buf (suc i) 0
    + 65536 * get_or buf (suc (suc i)) 0
    + 16777216 * get_or buf (suc (suc (suc i))) 0

-- bytes.slice(from, to)
abbrev pub slice : Bytes → ℕ → ℕ → Bytes
slice buf from to = take (to - from) (drop from buf)

overlay-append :
    (xs mid post : Bytes) → length xs ≡ length mid → overlay xs (mid ++ post) ≡ xs ++ post
overlay-append [] [] post h = refl
overlay-append [] (m ∷ mid) post h = absurd (omega arith)
overlay-append (x ∷ xs) [] post h = absurd (omega arith)
overlay-append (x ∷ xs) (m ∷ mid) post h =
    ap (λ l. x ∷ l) (overlay-append xs mid post (omega arith))

-- A write over `mid` puts `xs` in its place.
pub set_bytes-append :
    (n : ℕ) (pre mid post xs : Bytes)
    → length pre ≡ n
    → length xs ≡ length mid
    → set_bytes (pre ++ (mid ++ post)) n xs ≡ pre ++ (xs ++ post)
unfolding set_bytes
set_bytes-append zero [] mid post xs g h = overlay-append xs mid post h
set_bytes-append zero (p ∷ pre) mid post xs g h = absurd (omega arith)
set_bytes-append (suc n) [] mid post xs g h = absurd (omega arith)
set_bytes-append (suc n) (p ∷ pre) mid post xs g h =
    ap (λ l. p ∷ l) (set_bytes-append n pre mid post xs (omega arith) h)

-- The same where nothing follows.
pub set_bytes-append_last :
    (n : ℕ) (pre mid xs : Bytes)
    → length pre ≡ n
    → length xs ≡ length mid
    → set_bytes (pre ++ mid) n xs ≡ pre ++ xs
set_bytes-append_last n pre mid xs g h =
    ap (λ l. set_bytes (pre ++ l) n xs) (sym (append-nil mid))
    ∙ set_bytes-append n pre mid [] xs g h
    ∙ ap (λ l. pre ++ l) (append-nil xs)

pub set_uint8-append :
    (n : ℕ) (pre post : Bytes) (b v : ℕ)
    → length pre ≡ n
    → set_uint8 (pre ++ b ∷ post) n v ≡ pre ++ (v % 256) ∷ post
unfolding set_uint8
set_uint8-append n pre post b v g = set_bytes-append n pre (b ∷ []) post ((v % 256) ∷ []) g refl

pub set_uint16-append :
    (n : ℕ) (pre post : Bytes) (a b v : ℕ)
    → length pre ≡ n
    → set_uint16 (pre ++ a ∷ b ∷ post) n v ≡ pre ++ (v % 256) ∷ (v / 256 % 256) ∷ post
unfolding set_uint16
set_uint16-append n pre post a b v g =
    set_bytes-append n pre (a ∷ b ∷ []) post ((v % 256) ∷ (v / 256 % 256) ∷ []) g refl

-- A list of two or more bytes that hold a number below 2 ^ 16, read back.
pub get_uint16_bytes : (v : ℕ) → v < 65536 → v % 256 + 256 * (v / 256 % 256) ≡ v
get_uint16_bytes v h = omega arith

pub get_uint32_bytes :
    (v : ℕ)
    → v < 4294967296
    → v % 256 + 256 * (v / 256 % 256) + 65536 * (v / 65536 % 256) + 16777216 * (v / 16777216 % 256)
      ≡ v
get_uint32_bytes v h = omega arith
