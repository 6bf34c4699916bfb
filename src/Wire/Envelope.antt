-- ===== src/Wire/Envelope.antt =====
-- shared/src/wire/envelope.ts: the JSON texts that clients encrypt. A text is a sequence of Unicode
-- scalar values, and `len` is its length in UTF-8. JSON and the codec of UTF-8 are parameters.
pub mod Codec
pub mod RoundTrip
use Prim.Native.String.{len}
use Prim.Native.Char.{Char, code}
use unseen_fyi.Prelude.{
  ℕ, zero, suc, ◌+◌, Bool, true, false, not, ◌&&◌, ◌||◌, Option, none, some, String, List, [], ◌∷◌,
  length, ltb, leb, ◌==◌,
}
use unseen_fyi.Prelude.Int.{ℤ, pos, negsuc}
use unseen_fyi.Prelude.Dict.{Dict, get}
use unseen_fyi.Prelude.Eq.{Eq, string_eq}
use unseen_fyi.Prelude.Result.{Result, ok, err, throw_if, ◌>>=◌, ◌>>◌}
use unseen_fyi.Wire.Bytes.{Bytes}

abbrev pub max_name_bytes_wire : ℕ
max_name_bytes_wire = 1024

abbrev pub max_body_bytes : ℕ
max_body_bytes = 4096

abbrev pub max_plaintext_bytes : ℕ
max_plaintext_bytes = 8704

-- Number.MAX_SAFE_INTEGER
abbrev pub max_safe_integer : ℕ
max_safe_integer = 9_007_199_254_740_991

abbrev pub tid_all_zero : String
tid_all_zero = "0000000000000000"

pub data FileDeclineReason : Type 0 where
  too_large user_rejected unsupported : FileDeclineReason

pub data FileCancelReason : Type 0 where
  user_aborted integrity_failure session_rekey : FileCancelReason

pub data FileCancelSide : Type 0 where
  sender receiver : FileCancelSide

pub data PlaintextEnvelope : Type 0 where
  msg : String → String → PlaintextEnvelope
  resume resume_ack : String → PlaintextEnvelope
  file_offer : String → String → ℕ → PlaintextEnvelope
  file_accept : String → PlaintextEnvelope
  file_decline : String → FileDeclineReason → PlaintextEnvelope
  file_progress : String → ℕ → PlaintextEnvelope
  file_complete : String → String → PlaintextEnvelope
  file_complete_ack : String → PlaintextEnvelope
  file_cancel : String → FileCancelSide → FileCancelReason → PlaintextEnvelope

-- A value in an object: what the tests of the decoder tell apart.
pub data Value : Type 0 where
  text : String → Value
  number : ℤ → Value
  fraction other : Value

-- The value of a JSON text: its own keys in order, if it is a plain object.
pub data Parsed : Type 0 where
  plain_object : Dict String Value → Parsed
  not_object : Parsed

abbrev pub shape_error : String
shape_error = "envelope shape invalid"

unfoldable pub as_string : Option Value → Result String
as_string (some (text s)) = ok s
as_string _ = err shape_error

unfoldable pub as_body : Option Value → Result String
unfolding as_string
as_body value = do s ← as_string value; throw_if (ltb max_body_bytes (len s)) shape_error; ok s

-- [0-9a-f]*
unfoldable pub is_hex : String → Bool
is_hex String.[] = true
is_hex (String.◌∷◌ c s) =
    ((leb 48 (code c) && leb (code c) 57) || (leb 97 (code c) && leb (code c) 102)) && is_hex s

-- ID_HEX_RE.test(s)
unfoldable pub is_id : String → Bool
unfolding is_hex
is_id s = (len s == 16) && is_hex s

-- SHA256_HEX_RE.test(s)
unfoldable pub is_sha256 : String → Bool
unfolding is_hex
is_sha256 s = (len s == 64) && is_hex s

unfoldable pub as_id : Option Value → Result String
unfolding as_string is_id
as_id value = do s ← as_string value; throw_if (not (is_id s)) shape_error; ok s

unfoldable pub as_tid : Option Value → Result String
unfolding as_id
as_tid value = do s ← as_id value; throw_if (string_eq.beq s tid_all_zero) shape_error; ok s

unfoldable pub as_name : Option Value → Result String
unfolding as_string
as_name value = do s ← as_string value; throw_if (ltb max_name_bytes_wire (len s)) shape_error; ok s

abbrev pub is_safe_integer : ℤ → Bool
is_safe_integer (pos n) = leb n max_safe_integer
is_safe_integer (negsuc n) = ltb n max_safe_integer

unfoldable pub as_integer : Option Value → Result ℤ
as_integer (some (number n)) = do throw_if (not (is_safe_integer n)) shape_error; ok n
as_integer _ = err shape_error

-- if (n < least) fail()
abbrev pub at_least : ℕ → ℤ → Result ℕ
at_least least (pos n) = do throw_if (ltb n least) shape_error; ok n
at_least least (negsuc n) = err shape_error

unfoldable pub as_size : Option Value → Result ℕ
unfolding as_integer
as_size value = as_integer value >>= at_least 1

unfoldable pub as_received_bytes : Option Value → Result ℕ
unfolding as_integer
as_received_bytes value = as_integer value >>= at_least 0

unfoldable pub as_sender_sha256 : Option Value → Result String
unfolding as_string is_sha256
as_sender_sha256 value = do s ← as_string value; throw_if (not (is_sha256 s)) shape_error; ok s

module _ {A : Type 0} where
  abbrev pub found : Option A → Result A
  found none = err shape_error
  found (some a) = ok a

  -- The members of an enumeration are listed with their texts.
  unfoldable pub as_enum : Option Value → Dict String A → Result A
  unfolding as_string get
  as_enum value members = as_string value >>= λ s. found (get members s)

abbrev pub decline_reasons : Dict String FileDeclineReason
decline_reasons =
    ("too_large", too_large) ∷ ("user_rejected", user_rejected) ∷ ("unsupported", unsupported) ∷ []

abbrev pub cancel_reasons : Dict String FileCancelReason
cancel_reasons =
    ("user_aborted", user_aborted)
    ∷ ("integrity_failure", integrity_failure)
    ∷ ("session_rekey", session_rekey)
    ∷ []

abbrev pub cancel_sides : Dict String FileCancelSide
cancel_sides = ("sender", sender) ∷ ("receiver", receiver) ∷ []
