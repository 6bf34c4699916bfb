-- ===== src/Wire/Envelope/RoundTrip.antt =====
-- What is encrypted is read back.
use Prim.Native.String.{len}
use unseen_fyi.Prelude.{ℕ, ◌≤◌, ◌≡◌, refl, true, false, Option, some, String, length, arith, ltb}
use unseen_fyi.Prelude.Int.{pos}
use unseen_fyi.Prelude.Dict.{Dict, get}
use unseen_fyi.Prelude.Eq.{string_eq}
use unseen_fyi.Prelude.Result.{ok}
use unseen_fyi.Wire.Bytes.{Bytes}
use unseen_fyi.Wire.Envelope.{
  PlaintextEnvelope, FileDeclineReason, too_large, user_rejected, unsupported, FileCancelReason,
  user_aborted, integrity_failure, session_rekey, FileCancelSide, sender, receiver, Value, text,
  number, Parsed, plain_object, max_name_bytes_wire, max_body_bytes, max_plaintext_bytes,
  max_safe_integer, tid_all_zero, is_id, is_sha256, as_string, as_body, as_id, as_tid, as_name,
  as_integer, as_size, as_received_bytes, as_sender_sha256, as_enum, decline_reasons,
  cancel_reasons, cancel_sides,
}
use unseen_fyi.Wire.Envelope.Codec.{
  parse_fields, parse_known, parse_kind, parse_object, decline_text, cancel_text, side_text,
  to_object, body_of, encode_envelope, decode_envelope,
}

abbrev pub IsTid : String → Type 0
IsTid tid = (is_id tid ≡ true) × (string_eq.beq tid tid_all_zero ≡ false)

-- The fields are as the decoder wants them.
abbrev pub IsEnvelope : PlaintextEnvelope → Type 0
IsEnvelope (PlaintextEnvelope.msg body t) = len body ≤ max_body_bytes
IsEnvelope (PlaintextEnvelope.resume id) = is_id id ≡ true
IsEnvelope (PlaintextEnvelope.resume_ack id) = is_id id ≡ true
IsEnvelope (PlaintextEnvelope.file_offer tid name size) =
    IsTid tid × (len name ≤ max_name_bytes_wire) × (1 ≤ size) × (size ≤ max_safe_integer)
IsEnvelope (PlaintextEnvelope.file_accept tid) = IsTid tid
IsEnvelope (PlaintextEnvelope.file_decline tid reason) = IsTid tid
IsEnvelope (PlaintextEnvelope.file_progress tid received_bytes) =
    IsTid tid × (received_bytes ≤ max_safe_integer)
IsEnvelope (PlaintextEnvelope.file_complete tid sender_sha256) =
    IsTid tid × (is_sha256 sender_sha256 ≡ true)
IsEnvelope (PlaintextEnvelope.file_complete_ack tid) = IsTid tid
IsEnvelope (PlaintextEnvelope.file_cancel tid side reason) = IsTid tid

as_id-text : (id : String) → is_id id ≡ true → as_id (some (text id)) ≡ ok id
unfolding as_id as_string
as_id-text id h = rw h refl

as_tid-text : (tid : String) → IsTid tid → as_tid (some (text tid)) ≡ ok tid
unfolding as_tid
as_tid-text tid (h, k) = rw (as_id-text tid h) (rw k refl)

as_size-number : (n : ℕ) → 1 ≤ n → n ≤ max_safe_integer → as_size (some (number (pos n))) ≡ ok n
unfolding as_size as_integer
as_size-number n h k = ground arith

as_received_bytes-number :
    (n : ℕ) → n ≤ max_safe_integer → as_received_bytes (some (number (pos n))) ≡ ok n
unfolding as_received_bytes as_integer
as_received_bytes-number n k = ground arith

as_name-text :
    (name : String) → len name ≤ max_name_bytes_wire → as_name (some (text name)) ≡ ok name
unfolding as_name as_string
as_name-text name h = ground arith

as_body-text : (body : String) → len body ≤ max_body_bytes → as_body (some (text body)) ≡ ok body
unfolding as_body as_string
as_body-text body h = ground arith

as_sender_sha256-text : (s : String) → is_sha256 s ≡ true → as_sender_sha256 (some (text s)) ≡ ok s
unfolding as_sender_sha256 as_string
as_sender_sha256-text s h = rw h refl

as_enum-decline :
    (r : FileDeclineReason) → as_enum (some (text (decline_text r))) decline_reasons ≡ ok r
unfolding as_enum as_string get
as_enum-decline too_large = refl
as_enum-decline user_rejected = refl
as_enum-decline unsupported = refl

as_enum-cancel :
    (r : FileCancelReason) → as_enum (some (text (cancel_text r))) cancel_reasons ≡ ok r
unfolding as_enum as_string get
as_enum-cancel user_aborted = refl
as_enum-cancel integrity_failure = refl
as_enum-cancel session_rekey = refl

as_enum-side : (r : FileCancelSide) → as_enum (some (text (side_text r))) cancel_sides ≡ ok r
unfolding as_enum as_string get
as_enum-side sender = refl
as_enum-side receiver = refl

parse_object-to_object :
    (e : PlaintextEnvelope) → IsEnvelope e → parse_object (some (plain_object (to_object e))) ≡ ok e
unfolding parse_object parse_kind parse_known parse_fields to_object get as_string
parse_object-to_object (PlaintextEnvelope.msg body t) h = rw (as_body-text body h) refl
parse_object-to_object (PlaintextEnvelope.resume id) h = rw (as_id-text id h) refl
parse_object-to_object (PlaintextEnvelope.resume_ack id) h = rw (as_id-text id h) refl
parse_object-to_object (PlaintextEnvelope.file_offer tid name size) (h, n, low, high) =
    rw (as_tid-text tid h, as_name-text name n, as_size-number size low high) refl
parse_object-to_object (PlaintextEnvelope.file_accept tid) h = rw (as_tid-text tid h) refl
parse_object-to_object (PlaintextEnvelope.file_decline tid reason) h =
    rw (as_tid-text tid h, as_enum-decline reason) refl
parse_object-to_object (PlaintextEnvelope.file_progress tid received_bytes) (h, n) =
    rw (as_tid-text tid h, as_received_bytes-number received_bytes n) refl
parse_object-to_object (PlaintextEnvelope.file_complete tid sender_sha256) (h, n) =
    rw (as_tid-text tid h, as_sender_sha256-text sender_sha256 n) refl
parse_object-to_object (PlaintextEnvelope.file_complete_ack tid) h = rw (as_tid-text tid h) refl
parse_object-to_object (PlaintextEnvelope.file_cancel tid side reason) h =
    rw (as_tid-text tid h, as_enum-side side, as_enum-cancel reason) refl

body_short : (e : PlaintextEnvelope) → IsEnvelope e → len (body_of e) ≤ max_body_bytes
body_short (PlaintextEnvelope.msg body t) h = h
body_short _ h = omega arith

-- Where `parse` reads back the object that `stringify` wrote for an envelope: if its fields are as
-- the decoder wants them and its text is at most 8704 bytes long, it is encoded without an error and
-- decoded to itself.
pub decode_envelope-encode :
    (stringify : Dict String Value → Bytes) (parse : Bytes → Option Parsed)
    → (e : PlaintextEnvelope) → parse (stringify (to_object e)) ≡ some (plain_object (to_object e))
    → IsEnvelope e
    → length (stringify (to_object e)) ≤ max_plaintext_bytes
    → (bytes : Bytes) × (encode_envelope stringify e ≡ ok bytes)
      × (decode_envelope parse bytes ≡ ok e)
unfolding encode_envelope decode_envelope
decode_envelope-encode stringify parse e law h k =
    let fits : ltb max_plaintext_bytes (length (stringify (to_object e))) ≡ false = ground arith in
    let short : ltb max_body_bytes (len (body_of e)) ≡ false = ground (arith, body_short e h) in
    (stringify (to_object e), rw (short, fits) refl, rw (fits, law) (parse_object-to_object e h))
