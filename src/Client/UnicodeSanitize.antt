-- ===== src/Client/UnicodeSanitize.antt =====
-- The cleaning of texts and file names (client/src/domain/unicode-sanitize.ts). A text is the list of
-- its code points, as the `u` flag and `for … of` read it, without lone surrogates; `normalize`
-- is String.prototype.normalize('NFC') and `is_mark` is the test for \p{Mn}: parameters.
pub mod Filename
pub mod Combining
use unseen_fyi.Prelude.{
  ℕ, zero, suc, ◌+◌, ◌-◌, ◌≤◌, Bool, true, false, not, ◌&&◌, ◌||◌, Option, none, some, List, [],
  ◌∷◌, ltb, leb, ◌==◌, list_eq, map, if◌then◌else◌,
}

abbrev pub Text : Type 0
Text = List ℕ

abbrev between : ℕ → ℕ → ℕ → Bool
between low high c = leb low c && leb c high

unfoldable pub is_bidi_control : ℕ → Bool
is_bidi_control c =
    between 0x202A 0x202E c || between 0x2066 0x2069 c || between 0x200E 0x200F c || (c == 0x061C)

unfoldable pub is_invisible : ℕ → Bool
is_invisible c = (c == 0xFEFF) || between 0x200E 0x200F c

unfoldable pub is_control : ℕ → Bool
is_control c = leb c 0x1F || between 0x7F 0x9F c

-- '/', '\', ':' and '|'
unfoldable pub is_path_separator : ℕ → Bool
is_path_separator c = (c == 0x2F) || (c == 0x5C) || (c == 0x3A) || (c == 0x7C)

abbrev pub filename_byte_cap : ℕ
filename_byte_cap = 255

abbrev pub combining_cap : ℕ
combining_cap = 4

abbrev pub underscore : ℕ
underscore = 0x5F

abbrev pub dot : ℕ
dot = 0x2E

-- replaceAll(…, '') and replaceAll(…, '_')
unfoldable pub remove : (ℕ → Bool) → Text → Text
remove test [] = []
remove test (c ∷ cs) = if test c then remove test cs else c ∷ remove test cs

unfoldable pub replace : (ℕ → Bool) → Text → Text
replace test [] = []
replace test (c ∷ cs) = (if test c then underscore else c) ∷ replace test cs

-- The bytes of a character in UTF-8.
unfoldable pub utf8_len : ℕ → ℕ
utf8_len c = if ltb c 0x80 then 1 else if ltb c 0x800 then 2 else if ltb c 0x10000 then 3 else 4

unfoldable pub byte_length : Text → ℕ
unfolding utf8_len
byte_length [] = 0
byte_length (c ∷ cs) = utf8_len c + byte_length cs

unfoldable pub with_first : ℕ → Option Text → Option Text
with_first c none = none
with_first c (some text) = some (c ∷ text)

-- The first `len` bytes, decoded: only if they end where a character does.
unfoldable pub decode_prefix : ℕ → Text → Option Text
unfolding utf8_len with_first
decode_prefix zero input = some []
decode_prefix (suc len) [] = none
decode_prefix (suc len) (c ∷ cs) =
    let rest = decode_prefix (suc len - utf8_len c) cs in
    if leb (utf8_len c) (suc len) then with_first c rest else none

-- The loop of `truncateUtf8`, from `len` bytes down.
unfoldable pub first_that_decodes : Option Text → Text → Text
first_that_decodes none shorter = shorter
first_that_decodes (some text) shorter = text

unfoldable pub truncate_from : ℕ → Text → Text
unfolding decode_prefix first_that_decodes
truncate_from zero input = []
truncate_from (suc len) input =
    first_that_decodes (decode_prefix (suc len) input) (truncate_from len input)

unfoldable pub truncate_utf8 : Text → ℕ → Text
unfolding byte_length truncate_from
truncate_utf8 input max_bytes =
    if leb (byte_length input) max_bytes then input else truncate_from max_bytes input

-- '', '.' and '..'
unfoldable pub is_reserved : Text → Bool
is_reserved text = list_eq text [] || list_eq text (dot ∷ []) || list_eq text (dot ∷ dot ∷ [])

unfoldable pub starts_with_dot : Text → Bool
starts_with_dot [] = false
starts_with_dot (c ∷ cs) = c == dot

unfoldable pub finish_filename : Text → Option Text
unfolding is_reserved starts_with_dot
finish_filename truncated =
    if is_reserved truncated
    then none
    else if starts_with_dot truncated
    then some (underscore ∷ truncated)
    else some truncated

-- capCombiningRuns, with the marks that came before in a row.
unfoldable pub cap_from : (ℕ → Bool) → ℕ → Text → Text
cap_from is_mark run [] = []
cap_from is_mark run (c ∷ cs) =
    let kept = cap_from is_mark (run + 1) cs in
    let fresh = cap_from is_mark 0 cs in
    if is_mark c then (if leb (run + 1) combining_cap then c ∷ kept else kept) else c ∷ fresh

unfoldable pub cap_combining_runs : (ℕ → Bool) → Text → Text
unfolding cap_from
cap_combining_runs is_mark input = cap_from is_mark 0 input

module _ (normalize : Text → Text) where
  unfoldable pub without_path : Text → Text
  unfolding remove replace is_bidi_control is_invisible is_control is_path_separator
  without_path name =
      let no_bidi = remove is_bidi_control (normalize name) in
      let no_invisible = remove is_invisible no_bidi in
      let no_control = replace is_control no_invisible in replace is_path_separator no_control

  unfoldable pub sanitize_filename : Text → Option Text
  unfolding without_path is_reserved truncate_utf8 finish_filename
  sanitize_filename name =
      if is_reserved (without_path name)
      then none
      else finish_filename (truncate_utf8 (without_path name) filename_byte_cap)

  unfoldable pub sanitize_unicode : (ℕ → Bool) → Text → Text
  unfolding remove is_bidi_control cap_combining_runs
  sanitize_unicode is_mark raw = cap_combining_runs is_mark (normalize (remove is_bidi_control raw))
