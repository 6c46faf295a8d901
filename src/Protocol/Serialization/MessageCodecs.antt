-- ===== src/Protocol/Serialization/MessageCodecs.antt =====
-- Codecs of the messages of a session.
use pqchat.Prelude.{Bytes, IsU32, IsU64, refl, ◌++◌, ◌≡◌}
use pqchat.Protocol.Messages.{ChatMessage, MessageHeader, PrekeySelection}
use pqchat.Protocol.Serialization.Codec.{
  Codec, Decodes, Decodes-field, Decodes-last, Reads, Reads-field, Reads-last, Writes-field,
}
use pqchat.Protocol.Serialization.Fields.{
  BytesFit, OptionalFits, StringFits, bytes_codec, bytes_text, optional-IsU32_codec,
  optional_bytes_codec, optional_text, string_codec,
}
use pqchat.Protocol.Serialization.Messages.{
  read_chat_message, read_message_header, read_prekey_selection, write_chat_message,
  write_message_header, write_prekey_selection,
}
use pqchat.Protocol.Serialization.Words.{IsU32-codec}
use pqchat.Protocol.Serialization.Words64.{IsU64-codec}
use pqchat.Protocol.Serialization.Writer.{Writes, u32_text, u64_text}

pub record PrekeySelectionFits (m : PrekeySelection) : Type 0 where
  pub signed_prekey_ec_id : IsU32 m.signed_prekey_ec_id
  pub signed_prekey_pq_id : IsU32 m.signed_prekey_pq_id
  pub one_time_ec_id : OptionalFits IsU32 m.one_time_ec_id
  pub one_time_pq_id : OptionalFits IsU32 m.one_time_pq_id

unfoldable pub prekey_selection_text : PrekeySelection → Bytes
prekey_selection_text m =
    u32_text m.signed_prekey_ec_id
    ++ (u32_text m.signed_prekey_pq_id
        ++ (optional_text u32_text m.one_time_ec_id ++ (optional_text u32_text m.one_time_pq_id)))

prekey_selection-Writes :
    (m : PrekeySelection) → Writes (write_prekey_selection m) (prekey_selection_text m)
unfolding write_prekey_selection prekey_selection_text
prekey_selection-Writes m = Writes-field IsU32-codec m.signed_prekey_ec_id _ (
    Writes-field IsU32-codec m.signed_prekey_pq_id _ (
      Writes-field optional-IsU32_codec m.one_time_ec_id _
        (optional-IsU32_codec.writes m.one_time_pq_id)))

prekey_selection-Reads :
    (m : PrekeySelection)
    → PrekeySelectionFits m
    → Reads read_prekey_selection (prekey_selection_text m) m
unfolding read_prekey_selection prekey_selection_text
prekey_selection-Reads m h =
    Reads-field IsU32-codec _ m.signed_prekey_ec_id _ m h.signed_prekey_ec_id (
      Reads-field IsU32-codec _ m.signed_prekey_pq_id _ m h.signed_prekey_pq_id (
        Reads-field optional-IsU32_codec _ m.one_time_ec_id _ m h.one_time_ec_id
          (Reads-last optional-IsU32_codec _ m.one_time_pq_id h.one_time_pq_id)))

prekey_selection_decodes :
    Decodes read_prekey_selection (λ xs m. (xs ≡ prekey_selection_text m) × PrekeySelectionFits m)
unfolding read_prekey_selection prekey_selection_text
prekey_selection_decodes = Decodes-field IsU32-codec _ _ λ v0 h0.
    Decodes-field IsU32-codec _ _ λ v1 h1. Decodes-field optional-IsU32_codec _ _ λ v2 h2.
      Decodes-last optional-IsU32_codec _ _ λ v3 h3. (
        refl,
        record {
          signed_prekey_ec_id = h0;
          signed_prekey_pq_id = h1;
          one_time_ec_id = h2;
          one_time_pq_id = h3;
        },
      )

pub prekey_selection_codec :
    Codec write_prekey_selection read_prekey_selection prekey_selection_text PrekeySelectionFits
prekey_selection_codec = record {
  writes = prekey_selection-Writes;
  parses = record { reads = prekey_selection-Reads; decodes = prekey_selection_decodes };
}

pub record MessageHeaderFits (m : MessageHeader) : Type 0 where
  pub sender_ratchet_public_key : OptionalFits BytesFit m.sender_ratchet_public_key
  pub previous_chain_length : IsU64 m.previous_chain_length
  pub message_number : IsU64 m.message_number
  pub flags : IsU32 m.flags

unfoldable pub message_header_text : MessageHeader → Bytes
message_header_text m =
    optional_text bytes_text m.sender_ratchet_public_key
    ++ (u64_text m.previous_chain_length ++ (u64_text m.message_number ++ (u32_text m.flags)))

message_header-Writes :
    (m : MessageHeader) → Writes (write_message_header m) (message_header_text m)
unfolding write_message_header message_header_text
message_header-Writes m = Writes-field optional_bytes_codec m.sender_ratchet_public_key _ (
    Writes-field IsU64-codec m.previous_chain_length _
      (Writes-field IsU64-codec m.message_number _ (IsU32-codec.writes m.flags)))

message_header-Reads :
    (m : MessageHeader) → MessageHeaderFits m → Reads read_message_header (message_header_text m) m
unfolding read_message_header message_header_text
message_header-Reads m h =
    Reads-field optional_bytes_codec _ m.sender_ratchet_public_key _ m h.sender_ratchet_public_key (
      Reads-field IsU64-codec _ m.previous_chain_length _ m h.previous_chain_length (
        Reads-field IsU64-codec _ m.message_number _ m h.message_number
          (Reads-last IsU32-codec _ m.flags h.flags)))

message_header_decodes :
    Decodes read_message_header (λ xs m. (xs ≡ message_header_text m) × MessageHeaderFits m)
unfolding read_message_header message_header_text
message_header_decodes = Decodes-field optional_bytes_codec _ _ λ v0 h0.
    Decodes-field IsU64-codec _ _ λ v1 h1. Decodes-field IsU64-codec _ _ λ v2 h2.
      Decodes-last IsU32-codec _ _ λ v3 h3. (
        refl,
        record {
          sender_ratchet_public_key = h0;
          previous_chain_length = h1;
          message_number = h2;
          flags = h3;
        },
      )

message_header_codec :
    Codec write_message_header read_message_header message_header_text MessageHeaderFits
message_header_codec = record {
  writes = message_header-Writes;
  parses = record { reads = message_header-Reads; decodes = message_header_decodes };
}

pub record ChatMessageFits (m : ChatMessage) : Type 0 where
  pub session_id : StringFits m.session_id
  pub from_user : StringFits m.from_user
  pub to_user : StringFits m.to_user
  pub header : MessageHeaderFits m.header
  pub nonce : BytesFit m.nonce
  pub ciphertext : BytesFit m.ciphertext

unfoldable pub chat_message_text : ChatMessage → Bytes
chat_message_text m =
    bytes_text m.session_id
    ++ (bytes_text m.from_user
        ++ (bytes_text m.to_user
            ++ (message_header_text m.header ++ (bytes_text m.nonce ++ (bytes_text m.ciphertext)))))

chat_message-Writes : (m : ChatMessage) → Writes (write_chat_message m) (chat_message_text m)
unfolding write_chat_message chat_message_text
chat_message-Writes m = Writes-field string_codec m.session_id _ (
    Writes-field string_codec m.from_user _ (
      Writes-field string_codec m.to_user _ (
        Writes-field message_header_codec m.header _
          (Writes-field bytes_codec m.nonce _ (bytes_codec.writes m.ciphertext)))))

chat_message-Reads :
    (m : ChatMessage) → ChatMessageFits m → Reads read_chat_message (chat_message_text m) m
unfolding read_chat_message chat_message_text
chat_message-Reads m h = Reads-field string_codec _ m.session_id _ m h.session_id (
    Reads-field string_codec _ m.from_user _ m h.from_user (
      Reads-field string_codec _ m.to_user _ m h.to_user (
        Reads-field message_header_codec _ m.header _ m h.header (
          Reads-field bytes_codec _ m.nonce _ m h.nonce
            (Reads-last bytes_codec _ m.ciphertext h.ciphertext)))))

chat_message_decodes :
    Decodes read_chat_message (λ xs m. (xs ≡ chat_message_text m) × ChatMessageFits m)
unfolding read_chat_message chat_message_text
chat_message_decodes = Decodes-field string_codec _ _ λ v0 h0.
    Decodes-field string_codec _ _ λ v1 h1. Decodes-field string_codec _ _ λ v2 h2.
      Decodes-field message_header_codec _ _ λ v3 h3. Decodes-field bytes_codec _ _ λ v4 h4.
        Decodes-last bytes_codec _ _ λ v5 h5. (
          refl,
          record {
            session_id = h0;
            from_user = h1;
            to_user = h2;
            header = h3;
            nonce = h4;
            ciphertext = h5;
          },
        )

pub chat_message_codec :
    Codec write_chat_message read_chat_message chat_message_text ChatMessageFits
chat_message_codec = record {
  writes = chat_message-Writes;
  parses = record { reads = chat_message-Reads; decodes = chat_message_decodes };
}
