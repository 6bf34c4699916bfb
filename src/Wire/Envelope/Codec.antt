-- ===== src/Wire/Envelope/Codec.antt =====
-- encodeEnvelope and decodeEnvelope of shared/src/wire/envelope.ts.
use Prim.Native.String.{len}
use unseen_fyi.Prelude.{ℕ, ◌+◌, not, Option, none, some, String, [], ◌∷◌, length, ltb, ◌==◌}
use unseen_fyi.Prelude.Int.{pos}
use unseen_fyi.Prelude.Dict.{Dict, get}
use unseen_fyi.Prelude.Eq.{string_eq}
use unseen_fyi.Prelude.Result.{Result, ok, err, throw_if, ◌>>=◌, ◌>>◌}
use unseen_fyi.Wire.Bytes.{Bytes}
use unseen_fyi.Wire.Envelope.{
  PlaintextEnvelope, FileDeclineReason, too_large, user_rejected, unsupported, FileCancelReason,
  user_aborted, integrity_failure, session_rekey, FileCancelSide, sender, receiver, Value, text,
  number, Parsed, plain_object, shape_error, max_body_bytes, max_plaintext_bytes, as_string,
  as_body, as_id, as_tid, as_name, as_size, as_received_bytes, as_sender_sha256, as_enum,
  decline_reasons, cancel_reasons, cancel_sides,
}

pub data EnvelopeKind : Type 0 where
  msg resume resume_ack file_offer file_accept file_decline file_progress file_complete
        file_complete_ack file_cancel :
      EnvelopeKind

-- Object.keys(PARSERS)
abbrev pub known_kinds : Dict String EnvelopeKind
known_kinds =
    ("msg", msg)
    ∷ ("resume", resume)
    ∷ ("resume_ack", resume_ack)
    ∷ ("file_offer", file_offer)
    ∷ ("file_accept", file_accept)
    ∷ ("file_decline", file_decline)
    ∷ ("file_progress", file_progress)
    ∷ ("file_complete", file_complete)
    ∷ ("file_complete_ack", file_complete_ack)
    ∷ ("file_cancel", file_cancel)
    ∷ []

abbrev pub required_field_count : EnvelopeKind → ℕ
required_field_count msg = 2
required_field_count resume = 1
required_field_count resume_ack = 1
required_field_count file_offer = 3
required_field_count file_accept = 1
required_field_count file_decline = 2
required_field_count file_progress = 2
required_field_count file_complete = 2
required_field_count file_complete_ack = 1
required_field_count file_cancel = 3

-- PARSERS
unfoldable pub parse_fields : EnvelopeKind → Dict String Value → Result PlaintextEnvelope
unfolding get
parse_fields msg r = do
  body ← as_body (get r "body")
  t ← as_string (get r "t")
  ok (PlaintextEnvelope.msg body t)
parse_fields resume r = do id ← as_id (get r "_id"); ok (PlaintextEnvelope.resume id)
parse_fields resume_ack r = do id ← as_id (get r "_id"); ok (PlaintextEnvelope.resume_ack id)
parse_fields file_offer r = do
  tid ← as_tid (get r "tid")
  name ← as_name (get r "name")
  size ← as_size (get r "size")
  ok (PlaintextEnvelope.file_offer tid name size)
parse_fields file_accept r = do tid ← as_tid (get r "tid"); ok (PlaintextEnvelope.file_accept tid)
parse_fields file_decline r = do
  tid ← as_tid (get r "tid")
  reason ← as_enum (get r "reason") decline_reasons
  ok (PlaintextEnvelope.file_decline tid reason)
parse_fields file_progress r = do
  tid ← as_tid (get r "tid")
  received_bytes ← as_received_bytes (get r "received_bytes")
  ok (PlaintextEnvelope.file_progress tid received_bytes)
parse_fields file_complete r = do
  tid ← as_tid (get r "tid")
  sender_sha256 ← as_sender_sha256 (get r "sender_sha256")
  ok (PlaintextEnvelope.file_complete tid sender_sha256)
parse_fields file_complete_ack r = do
  tid ← as_tid (get r "tid")
  ok (PlaintextEnvelope.file_complete_ack tid)
parse_fields file_cancel r = do
  tid ← as_tid (get r "tid")
  side ← as_enum (get r "side") cancel_sides
  reason ← as_enum (get r "reason") cancel_reasons
  ok (PlaintextEnvelope.file_cancel tid side reason)

unfoldable pub parse_known : Dict String Value → Option EnvelopeKind → Result PlaintextEnvelope
parse_known r none = err shape_error
parse_known r (some kind) = do
  throw_if (not (length r == required_field_count kind + 1)) shape_error
  parse_fields kind r

unfoldable pub parse_kind : Dict String Value → Option Value → Result PlaintextEnvelope
unfolding get
parse_kind r (some (text kind)) = parse_known r (get known_kinds kind)
parse_kind r _ = err shape_error

-- none: the bytes are no UTF-8, or the text is no JSON.
unfoldable pub parse_object : Option Parsed → Result PlaintextEnvelope
unfolding get
parse_object (some (plain_object r)) = parse_kind r (get r "kind")
parse_object _ = err shape_error

abbrev pub decline_text : FileDeclineReason → String
decline_text too_large = "too_large"
decline_text user_rejected = "user_rejected"
decline_text unsupported = "unsupported"

abbrev pub cancel_text : FileCancelReason → String
cancel_text user_aborted = "user_aborted"
cancel_text integrity_failure = "integrity_failure"
cancel_text session_rekey = "session_rekey"

abbrev pub side_text : FileCancelSide → String
side_text sender = "sender"
side_text receiver = "receiver"

-- The envelope as the object that JSON.stringify writes.
unfoldable pub to_object : PlaintextEnvelope → Dict String Value
to_object (PlaintextEnvelope.msg body t) =
    ("kind", text "msg") ∷ ("body", text body) ∷ ("t", text t) ∷ []
to_object (PlaintextEnvelope.resume id) = ("kind", text "resume") ∷ ("_id", text id) ∷ []
to_object (PlaintextEnvelope.resume_ack id) = ("kind", text "resume_ack") ∷ ("_id", text id) ∷ []
to_object (PlaintextEnvelope.file_offer tid name size) =
    ("kind", text "file_offer")
    ∷ ("tid", text tid)
    ∷ ("name", text name)
    ∷ ("size", number (pos size))
    ∷ []
to_object (PlaintextEnvelope.file_accept tid) =
    ("kind", text "file_accept") ∷ ("tid", text tid) ∷ []
to_object (PlaintextEnvelope.file_decline tid reason) =
    ("kind", text "file_decline") ∷ ("tid", text tid) ∷ ("reason", text (decline_text reason)) ∷ []
to_object (PlaintextEnvelope.file_progress tid received_bytes) =
    ("kind", text "file_progress")
    ∷ ("tid", text tid)
    ∷ ("received_bytes", number (pos received_bytes))
    ∷ []
to_object (PlaintextEnvelope.file_complete tid sender_sha256) =
    ("kind", text "file_complete") ∷ ("tid", text tid) ∷ ("sender_sha256", text sender_sha256) ∷ []
to_object (PlaintextEnvelope.file_complete_ack tid) =
    ("kind", text "file_complete_ack") ∷ ("tid", text tid) ∷ []
to_object (PlaintextEnvelope.file_cancel tid side reason) =
    ("kind", text "file_cancel")
    ∷ ("tid", text tid)
    ∷ ("side", text (side_text side))
    ∷ ("reason", text (cancel_text reason))
    ∷ []

abbrev pub body_of : PlaintextEnvelope → String
body_of (PlaintextEnvelope.msg body t) = body
body_of _ = ""

-- `stringify` is JSON.stringify and TextEncoder; `parse` is TextDecoder and JSON.parse.
unfoldable pub encode_envelope :
    (stringify : Dict String Value → Bytes) → PlaintextEnvelope → Result Bytes
unfolding to_object
encode_envelope stringify envelope = do
  throw_if (ltb max_body_bytes (len (body_of envelope))) "body exceeds MAX_BODY_BYTES"
  throw_if (ltb max_plaintext_bytes (length (stringify (to_object envelope))))
      "plaintext exceeds MAX_PLAINTEXT_BYTES"
  ok (stringify (to_object envelope))

unfoldable pub decode_envelope : (parse : Bytes → Option Parsed) → Bytes → Result PlaintextEnvelope
unfolding parse_object
decode_envelope parse bytes = do
  throw_if (ltb max_plaintext_bytes (length bytes)) "plaintext exceeds MAX_PLAINTEXT_BYTES"
  parse_object (parse bytes)
