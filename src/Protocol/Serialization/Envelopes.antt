-- ===== src/Protocol/Serialization/Envelopes.antt =====
-- Envelopes and sequences of envelopes: src/protocol/serialization.cpp, SerializeEnvelope to
-- DeserializeInboxEnvelopeVector.
use pqchat.Prelude.{
  Bytes, List, Option, String, [], if◌then◌else◌, length, none, some, suc, zero, ℕ, ◌%◌, ◌==◌, ◌^◌,
  ◌∷◌,
}
use pqchat.Protocol.Messages.{
  ChatMessage, Envelope, InboxEnvelope, InitialMessage, chat_kind, from_chat, from_initial,
  initial_kind,
}
use pqchat.Protocol.Serialization.Messages.{
  read_chat_message, read_initial_message, write_chat_message, write_initial_message,
}
use pqchat.Protocol.Serialization.Reader.{
  Reader, limit_u32, max_envelope_vector_items, read_bytes, read_u32, read_u64, read_u8,
}
use pqchat.Protocol.Serialization.Whole.{decode_whole, run}
use pqchat.Protocol.Serialization.Writer.{Write, write_bytes, write_u32, write_u64, write_u8}
use pqchat.Result.{Result, err, ok, ◌>>=◌}

-- `Writer writer; …; return Ok(writer.Take())`
abbrev pub take_written : Write → Bytes
take_written write = write []

unfoldable pub write_initial_envelope : InitialMessage → Write
write_initial_envelope message out = write_initial_message message (write_u8 0 out)

unfoldable pub write_chat_envelope : ChatMessage → Write
write_chat_envelope message out = write_chat_message message (write_u8 1 out)

unfoldable pub or_missing : {A : Type 0} → String → Option A → Result A
or_missing text none = err text
or_missing text (some v) = ok v

unfoldable pub serialize_envelope : Envelope → Result Bytes
unfolding or_missing write_initial_envelope write_chat_envelope
serialize_envelope envelope = elim envelope.kind [
  | initial_kind ↦ do
    message ← or_missing "serialize envelope failed: initial payload missing" envelope.initial
    ok (take_written (write_initial_envelope message))
  | chat_kind ↦ do
    message ← or_missing "serialize envelope failed: chat payload missing" envelope.chat
    ok (take_written (write_chat_envelope message))
]

unfoldable pub read_initial_payload : Reader → Result (Envelope × Reader)
read_initial_payload r = do
  (initial, r') ← run read_initial_message "decode initial message failed: " r
  ok (from_initial initial, r')

unfoldable pub read_chat_payload : Reader → Result (Envelope × Reader)
read_chat_payload r = do
  (chat, r') ← run read_chat_message "decode chat message failed: " r
  ok (from_chat chat, r')

unfoldable pub unknown_tag : Reader → Result (Envelope × Reader)
unknown_tag r = err "decode envelope failed: unknown tag"

unfoldable pub read_tagged : ℕ → Reader → Result (Envelope × Reader)
read_tagged tag =
    if tag == 0 then read_initial_payload else if tag == 1 then read_chat_payload else unknown_tag

unfoldable pub read_envelope : Reader → Result (Envelope × Reader)
read_envelope r = do (tag, r') ← run read_u8 "decode envelope failed: " r; read_tagged tag r'

unfoldable pub deserialize_envelope : Bytes → Result Envelope
deserialize_envelope =
    decode_whole "envelope payload" "decode envelope failed: trailing bytes" read_envelope

-- `for (const auto& envelope : envelopes)`; an item that cannot be written stops the loop.
unfoldable pub write_envelopes : List Envelope → Bytes → Result Bytes
write_envelopes [] out = ok out
write_envelopes (envelope ∷ rest) out = do
  encoded ← serialize_envelope envelope
  write_envelopes rest (write_bytes encoded out)

unfoldable pub serialize_envelope_vector : List Envelope → Result Bytes
unfolding write_envelopes
serialize_envelope_vector envelopes =
    write_envelopes envelopes (write_u32 (length envelopes % 2 ^ 32) [])

unfoldable pub read_envelope_item : Reader → Result (Envelope × Reader)
read_envelope_item r = do
  (encoded, r') ← run read_bytes "decode envelope vector item failed: " r
  envelope ← deserialize_envelope encoded
  ok (envelope, r')

-- The loop of both vectors, by the rounds left.
unfoldable pub read_rounds :
    {A : Type 0} → (Reader → Result (A × Reader)) → ℕ → Reader → Result (List A × Reader)
read_rounds item zero r = ok ([], r)
read_rounds item (suc n) r = do
  (first, r₁) ← item r
  (rest, r₂) ← read_rounds item n r₁
  ok (first ∷ rest, r₂)

unfoldable pub read_count : String → String → Reader → Result (ℕ × Reader)
read_count label prefix r = do
  (count, r') ← run read_u32 prefix r
  (_, r'') ← run (limit_u32 count max_envelope_vector_items label) prefix r'
  ok (count, r'')

unfoldable pub read_envelope_vector : Reader → Result (List Envelope × Reader)
read_envelope_vector r = do
  (count, r') ← read_count "envelope vector count" "decode envelope vector failed: " r
  read_rounds read_envelope_item count r'

unfoldable pub deserialize_envelope_vector : Bytes → Result (List Envelope)
deserialize_envelope_vector =
    decode_whole "envelope vector payload" "decode envelope vector failed: trailing bytes"
      read_envelope_vector

unfoldable pub write_inbox_envelopes : List InboxEnvelope → Bytes → Result Bytes
write_inbox_envelopes [] out = ok out
write_inbox_envelopes (item ∷ rest) out = do
  encoded ← serialize_envelope item.envelope
  write_inbox_envelopes rest (write_bytes encoded (write_u64 item.inbox_id out))

unfoldable pub serialize_inbox_envelope_vector : List InboxEnvelope → Result Bytes
unfolding write_inbox_envelopes
serialize_inbox_envelope_vector envelopes =
    write_inbox_envelopes envelopes (write_u32 (length envelopes % 2 ^ 32) [])

unfoldable pub read_inbox_item : Reader → Result (InboxEnvelope × Reader)
read_inbox_item r = do
  (inbox_id, r₁) ← run read_u64 "decode inbox envelope vector item failed: " r
  (encoded, r₂) ← run read_bytes "decode inbox envelope vector item failed: " r₁
  envelope ← deserialize_envelope encoded
  ok (record { inbox_id = inbox_id; envelope = envelope }, r₂)

unfoldable pub read_inbox_envelope_vector : Reader → Result (List InboxEnvelope × Reader)
read_inbox_envelope_vector r = do
  (count, r') ← read_count "inbox envelope vector count" "decode inbox envelope vector failed: " r
  read_rounds read_inbox_item count r'

unfoldable pub deserialize_inbox_envelope_vector : Bytes → Result (List InboxEnvelope)
deserialize_inbox_envelope_vector =
    decode_whole "inbox envelope vector payload"
      "decode inbox envelope vector failed: trailing bytes" read_inbox_envelope_vector
