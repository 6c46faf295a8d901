-- ===== src/Protocol/Serialization/EnvelopeCodec.antt =====
-- Envelopes are read back: DeserializeEnvelope against SerializeEnvelope of
-- src/protocol/serialization.cpp.
-- An envelope as the two factories make it, with a message in bounds.
use pqchat.Prelude.{
  ==_iff, All, Bool-cases, Bytes, IsByte, Option, [], ap, ap₂, arith, inl, inr, length, none, refl,
  some, ℕ, ◌==◌, ◌↔◌, ◌∷◌, ◌≡◌, ◌≤◌, ◌⊎◌,
}
use pqchat.Protocol.Messages.{
  ChatMessage, Envelope, EnvelopeType, InitialMessage, chat_kind, from_chat, from_initial,
  initial_kind,
}
use pqchat.Protocol.Serialization.Codec.{Decodes, Parses, Reads}
use pqchat.Protocol.Serialization.Envelopes.{
  deserialize_envelope, read_chat_payload, read_envelope, read_initial_payload, read_tagged,
  serialize_envelope, unknown_tag,
}
use pqchat.Protocol.Serialization.InitialCodec.{
  InitialMessageFits, initial_message_codec, initial_message_text,
}
use pqchat.Protocol.Serialization.MessageCodecs.{
  ChatMessageFits, chat_message_codec, chat_message_text,
}
use pqchat.Protocol.Serialization.Messages.{read_chat_message, read_initial_message}
use pqchat.Protocol.Serialization.Reader.{max_serialized_input_bytes, read_u8}
use pqchat.Protocol.Serialization.Whole.{
  Decodes-run, Decodes-run_map, Decodes-then, Reads-run, Reads-run_map, Reads-then, attempt,
  decode_whole_written, run,
}
use pqchat.Protocol.Serialization.Words.{u8_codec}
use pqchat.Protocol.Serialization.Writer.{write_u8}
use pqchat.Result.{ok}

abbrev pub EnvelopeFits : Envelope → Type 0
EnvelopeFits envelope =
    ((m : InitialMessage) × (envelope ≡ from_initial m) × InitialMessageFits m)
    ⊎ ((m : ChatMessage) × (envelope ≡ from_chat m) × ChatMessageFits m)

-- Meant for the envelopes of the factories.
unfoldable pub envelope_text : Envelope → Bytes
envelope_text envelope = tagged envelope.kind envelope.initial envelope.chat
  where
    tagged : EnvelopeType → Option InitialMessage → Option ChatMessage → Bytes
    tagged initial_kind (some m) chat = 0 ∷ initial_message_text m
    tagged initial_kind none chat = []
    tagged chat_kind initial (some m) = 1 ∷ chat_message_text m
    tagged chat_kind initial none = []

-- `SerializeEnvelope` writes that text.
pub serialize_envelope-text :
    (envelope : Envelope)
    → EnvelopeFits envelope
    → serialize_envelope envelope ≡ ok (envelope_text envelope)
unfolding serialize_envelope envelope_text write_u8
serialize_envelope-text envelope (inl (m, same, h)) =
    rw same (ap ok ((initial_message_codec.writes m).appends (0 ∷ [])))
serialize_envelope-text envelope (inr (m, same, h)) =
    rw same (ap ok ((chat_message_codec.writes m).appends (1 ∷ [])))

envelope-Reads :
    (envelope : Envelope)
    → EnvelopeFits envelope
    → Reads (attempt read_envelope) (envelope_text envelope) envelope
unfolding read_envelope read_tagged read_initial_payload read_chat_payload envelope_text
envelope-Reads envelope (inl (m, same, h)) = rw same (
    Reads-then (run read_u8 "decode envelope failed: ") read_tagged (0 ∷ []) _ 0 (from_initial m)
      (Reads-run read_u8 _ (0 ∷ []) 0 (u8_codec.reads 0 (omega arith)))
      (Reads-run_map read_initial_message _ from_initial _ m (initial_message_codec.reads m h)))
envelope-Reads envelope (inr (m, same, h)) = rw same (
    Reads-then (run read_u8 "decode envelope failed: ") read_tagged (1 ∷ []) _ 1 (from_chat m)
      (Reads-run read_u8 _ (1 ∷ []) 1 (u8_codec.reads 1 (omega arith)))
      (Reads-run_map read_chat_message _ from_chat _ m (chat_message_codec.reads m h)))

tagged_decodes :
    (tag : ℕ)
    → Decodes
        (attempt (read_tagged tag))
        (λ xs envelope. (tag ∷ xs ≡ envelope_text envelope) × EnvelopeFits envelope)
unfolding read_tagged read_initial_payload read_chat_payload unknown_tag attempt envelope_text
tagged_decodes tag = elim (Bool-cases (tag == 0)) [
  | inl initial ↦ rw initial (
      Decodes-run_map read_initial_message _ from_initial _ _ initial_message_codec.decodes
        λ xs m p. (ap₂ prepend ((==_iff tag 0).0 initial) p.0, inl (m, refl, p.1)))
  | inr other ↦ elim (Bool-cases (tag == 1)) [
    | inl chat ↦
        rw (other, chat)
          (Decodes-run_map read_chat_message _ from_chat _ _ chat_message_codec.decodes
            λ xs m p. (ap₂ prepend ((==_iff tag 1).0 chat) p.0, inr (m, refl, p.1)))
    | inr unknown ↦ rw (other, unknown) (record { splits = λ r input v r' at bytes e. cc })
  ]
]
  where
    prepend : ℕ → Bytes → Bytes
    prepend tag xs = tag ∷ xs

envelope_decodes :
    Decodes
      (attempt read_envelope)
      (λ xs envelope. (xs ≡ envelope_text envelope) × EnvelopeFits envelope)
unfolding read_envelope
envelope_decodes =
    Decodes-then (run read_u8 "decode envelope failed: ") read_tagged _ _
      (Decodes-run read_u8 _ _ u8_codec.decodes) λ tag xs p. rw (p.0) (tagged_decodes tag)

envelope_parses : Parses (attempt read_envelope) envelope_text EnvelopeFits
envelope_parses = record { reads = envelope-Reads; decodes = envelope_decodes }

-- `DeserializeEnvelope` accepts exactly what `SerializeEnvelope` writes for an envelope in bounds,
-- up to the size limit, on every sequence of octets.
pub deserialize_envelope_iff :
    (bytes : Bytes) (envelope : Envelope)
    → All IsByte bytes
    → (deserialize_envelope bytes ≡ ok envelope) ↔ (
        EnvelopeFits envelope
        × (serialize_envelope envelope ≡ ok bytes)
        × (length bytes ≤ max_serialized_input_bytes))
unfolding deserialize_envelope
deserialize_envelope_iff bytes envelope octets =
    decode_whole_written read_envelope envelope_parses "envelope payload"
      "decode envelope failed: trailing bytes" serialize_envelope serialize_envelope-text bytes
      envelope octets
