-- ===== src/Client/UnicodeSanitize/Filename.antt =====
-- What a file name that was cleaned is like.
use unseen_fyi.Prelude.{
  ℕ, zero, suc, ◌+◌, ◌-◌, ◌≤◌, ◌≡◌, refl, ap, subst, Bool, true, false, Option, none, some, [], ◌∷◌,
  leb, arith, leb→le, le→leb, if◌then◌else◌,
}
use unseen_fyi.Client.UnicodeSanitize.{
  Text, is_bidi_control, is_invisible, is_control, is_path_separator, filename_byte_cap, underscore,
  remove, replace, utf8_len, byte_length, with_first, decode_prefix, first_that_decodes,
  truncate_from, truncate_utf8, is_reserved, starts_with_dot, finish_filename, without_path,
  sanitize_filename,
}

-- No character passes the test.
abbrev pub Free : (ℕ → Bool) → Text → Type 0
Free test [] = Unit {0}
Free test (c ∷ cs) = (test c ≡ false) × Free test cs

Free-if :
    (test : ℕ → Bool) (b : Bool) (x y : Text)
    → (b ≡ true → Free test x)
    → (b ≡ false → Free test y)
    → Free test (if b then x else y)
Free-if test true x y h k = h refl
Free-if test false x y h k = k refl

remove-Free : (test : ℕ → Bool) (cs : Text) → Free test (remove test cs)
unfolding remove
remove-Free test [] = tt
remove-Free test (c ∷ cs) =
    let rest = remove-Free test cs in Free-if test (test c) _ _ (λ _. rest) (λ e. (e, rest))

remove-Free_other : (test other : ℕ → Bool) (cs : Text) → Free test cs → Free test (remove other cs)
unfolding remove
remove-Free_other test other [] h = tt
remove-Free_other test other (c ∷ cs) (e, h) =
    let rest = remove-Free_other test other cs h in
    Free-if test (other c) _ _ (λ _. rest) (λ _. (e, rest))

passes_if :
    (test : ℕ → Bool) (b : Bool) (c d : ℕ)
    → (b ≡ true → test c ≡ false)
    → (b ≡ false → test d ≡ false)
    → test (if b then c else d) ≡ false
passes_if test true c d h k = h refl
passes_if test false c d h k = k refl

replace-Free : (test : ℕ → Bool) (cs : Text) → test underscore ≡ false → Free test (replace test cs)
unfolding replace
replace-Free test [] u = tt
replace-Free test (c ∷ cs) u =
    (passes_if test (test c) underscore c (λ _. u) (λ e. e), replace-Free test cs u)

replace-Free_other :
    (test other : ℕ → Bool) (cs : Text)
    → test underscore ≡ false
    → Free test cs
    → Free test (replace other cs)
unfolding replace
replace-Free_other test other [] u h = tt
replace-Free_other test other (c ∷ cs) u (e, h) =
    (passes_if test (other c) underscore c (λ _. u) (λ _. e), replace-Free_other test other cs u h)

-- A text that has at most some bytes, and no character that the whole has not.
Within : ℕ → Text → Text → Type 0
Within n whole part =
    (byte_length part ≤ n) × ((test : ℕ → Bool) → Free test whole → Free test part)

abbrev Decoded : ℕ → Text → Option Text → Type 0
Decoded n whole none = Unit {0}
Decoded n whole (some part) = Within n whole part

Decoded-if :
    (n : ℕ) (whole : Text) (b : Bool) (x : Option Text)
    → (b ≡ true → Decoded n whole x)
    → Decoded n whole (if b then x else none)
Decoded-if n whole true x h = h refl
Decoded-if n whole false x h = tt

with_first-Decoded :
    (n c : ℕ) (cs : Text) (x : Option Text)
    → utf8_len c ≤ n
    → Decoded (n - utf8_len c) cs x
    → Decoded n (c ∷ cs) (with_first c x)
unfolding with_first Within byte_length
with_first-Decoded n c cs none le h = tt
with_first-Decoded n c cs (some part) le (few, free) =
    (omega arith, λ test (e, h). (e, free test h))

decode_prefix-Decoded : (n : ℕ) (whole : Text) → Decoded n whole (decode_prefix n whole)
unfolding decode_prefix Within byte_length
decode_prefix-Decoded zero whole = (omega arith, λ test h. tt)
decode_prefix-Decoded (suc n) [] = tt
decode_prefix-Decoded (suc n) (c ∷ cs) =
    let rest = decode_prefix-Decoded (suc n - utf8_len c) cs in
    Decoded-if (suc n) (c ∷ cs) (leb (utf8_len c) (suc n)) _
      (λ fits. with_first-Decoded (suc n) c cs _ (leb→le (utf8_len c) (suc n) fits) rest)

first_that_decodes-Within :
    (n : ℕ) (whole : Text) (x : Option Text) (shorter : Text)
    → Decoded (suc n) whole x
    → Within n whole shorter
    → Within (suc n) whole (first_that_decodes x shorter)
unfolding first_that_decodes Within
first_that_decodes-Within n whole none shorter h (few, free) = (omega arith, free)
first_that_decodes-Within n whole (some part) shorter h k = h

truncate_from-Within : (n : ℕ) (whole : Text) → Within n whole (truncate_from n whole)
unfolding truncate_from Within byte_length
truncate_from-Within zero whole = (omega arith, λ test h. tt)
truncate_from-Within (suc n) whole =
    first_that_decodes-Within n whole _ _ (decode_prefix-Decoded (suc n) whole)
      (truncate_from-Within n whole)

truncate_utf8-Within : (whole : Text) (n : ℕ) → Within n whole (truncate_utf8 whole n)
unfolding truncate_utf8 Within
truncate_utf8-Within whole n = by_test (leb (byte_length whole) n) refl
  where
    by_test :
        (b : Bool)
        → leb (byte_length whole) n ≡ b
        → Within n whole (if b then whole else truncate_from n whole)
    by_test true e = (leb→le (byte_length whole) n e, λ test h. h)
    by_test false e = truncate_from-Within n whole

-- A name that cannot leave its folder: no direction marks, no U+FEFF, no control characters and no
-- separators, nothing that a file system reserves, no dot in front; and how long it can be. Other
-- invisible characters, such as U+00AD, U+200B and U+2060, may stand in it.
pub record Safe (name : Text) : Type 0 where
  pub no_bidi : Free is_bidi_control name
  pub no_invisible : Free is_invisible name
  pub no_control : Free is_control name
  pub no_separator : Free is_path_separator name
  pub not_reserved : is_reserved name ≡ false
  pub no_dot : starts_with_dot name ≡ false
  pub short : byte_length name ≤ filename_byte_cap + 1

abbrev Clean : Text → Type 0
Clean name =
    Free is_bidi_control name
    × Free is_invisible name
    × Free is_control name
    × Free is_path_separator name

without_path-Clean : (normalize : Text → Text) (name : Text) → Clean (without_path normalize name)
unfolding without_path is_bidi_control is_invisible is_control is_path_separator
without_path-Clean normalize name =
    let no_bidi = remove is_bidi_control (normalize name) in
    let no_invisible = remove is_invisible no_bidi in
    let no_control = replace is_control no_invisible in
    (
      replace-Free_other is_bidi_control is_path_separator no_control refl (
          replace-Free_other is_bidi_control is_control no_invisible refl (
            remove-Free_other is_bidi_control is_invisible no_bidi
              (remove-Free is_bidi_control (normalize name)))),
      replace-Free_other is_invisible is_path_separator no_control refl (
          replace-Free_other is_invisible is_control no_invisible refl
            (remove-Free is_invisible no_bidi)),
      replace-Free_other is_control is_path_separator no_control refl
          (replace-Free is_control no_invisible refl),
      replace-Free is_path_separator no_control refl,
    )

truncate_utf8-Clean : (name : Text) (n : ℕ) → Clean name → Clean (truncate_utf8 name n)
unfolding Within
truncate_utf8-Clean name n (a, b, c, d) =
    let (_, free) = truncate_utf8-Within name n in
    (free is_bidi_control a, free is_invisible b, free is_control c, free is_path_separator d)

abbrev SafeIfAny : Option Text → Type 0
SafeIfAny none = Unit {0}
SafeIfAny (some name) = Safe name

SafeIfAny-if :
    (b : Bool) (x y : Option Text)
    → (b ≡ true → SafeIfAny x)
    → (b ≡ false → SafeIfAny y)
    → SafeIfAny (if b then x else y)
SafeIfAny-if true x y h k = h refl
SafeIfAny-if false x y h k = k refl

underscore-not_reserved : (name : Text) → is_reserved (underscore ∷ name) ≡ false
unfolding is_reserved
underscore-not_reserved name = refl

finish_filename-SafeIfAny :
    (name : Text)
    → Clean name
    → byte_length name ≤ filename_byte_cap
    → SafeIfAny (finish_filename name)
unfolding finish_filename starts_with_dot byte_length is_bidi_control is_invisible is_control
    is_path_separator
finish_filename-SafeIfAny name (a, b, c, d) few =
    SafeIfAny-if (is_reserved name) _ _ (λ _. tt)
      (λ free.
        SafeIfAny-if (starts_with_dot name) _ _
          (λ _. record {
            no_bidi = (refl, a);
            no_invisible = (refl, b);
            no_control = (refl, c);
            no_separator = (refl, d);
            not_reserved = underscore-not_reserved name;
            no_dot = refl;
            short = omega arith;
          })
          (λ plain. record {
            no_bidi = a;
            no_invisible = b;
            no_control = c;
            no_separator = d;
            not_reserved = free;
            no_dot = plain;
            short = omega arith;
          }))

-- Whatever normalization does: a name that `sanitizeFilename` gives has none of the direction marks,
-- no U+FEFF, no control characters and no path separators, is not empty, '.' or '..', does not start
-- with a dot, and has at most 256 bytes in UTF-8. Of other invisible characters it says nothing: the
-- code keeps them.
pub sanitize_filename-Safe :
    (normalize : Text → Text) (name safe : Text)
    → sanitize_filename normalize name ≡ some safe
    → Safe safe
unfolding sanitize_filename Within
sanitize_filename-Safe normalize name safe e =
    let bare = without_path normalize name in
    let cut = truncate_utf8 bare filename_byte_cap in
    subst SafeIfAny e (
      SafeIfAny-if (is_reserved bare) _ _ (λ _. tt)
        (λ _.
          finish_filename-SafeIfAny cut
            (truncate_utf8-Clean bare filename_byte_cap (without_path-Clean normalize name))
            (truncate_utf8-Within bare filename_byte_cap).0))

remove-id : (test : ℕ → Bool) (cs : Text) → Free test cs → remove test cs ≡ cs
unfolding remove
remove-id test [] h = refl
remove-id test (c ∷ cs) (e, h) = rw e (ap (λ t. c ∷ t) (remove-id test cs h))

replace-id : (test : ℕ → Bool) (cs : Text) → Free test cs → replace test cs ≡ cs
unfolding replace
replace-id test [] h = refl
replace-id test (c ∷ cs) (e, h) = rw e (ap (λ t. c ∷ t) (replace-id test cs h))

-- A name that is normalized already, safe, and within the cap on file names is kept as it is.
pub sanitize_filename-keeps :
    (normalize : Text → Text) (name : Text)
    → normalize name ≡ name
    → Safe name
    → byte_length name ≤ filename_byte_cap
    → sanitize_filename normalize name ≡ some name
unfolding sanitize_filename without_path truncate_utf8 finish_filename
sanitize_filename-keeps normalize name e h few =
    rw
      (
        e,
        remove-id is_bidi_control name h.no_bidi,
        remove-id is_invisible name h.no_invisible,
        replace-id is_control name h.no_control,
        replace-id is_path_separator name h.no_separator,
        h.not_reserved,
        le→leb (byte_length name) filename_byte_cap few,
        h.not_reserved,
        h.no_dot,
      )
      refl
