-- ===== src/Protocol/Messages.antt =====
-- The messages of include/pqchat/protocol/messages.h. Strings and byte vectors are lists of bytes.
use pqchat.Prelude.{Bytes, Option, none, some, ℕ}

pub record PrekeySelection : Type 0 where
  pub signed_prekey_ec_id : ℕ
  pub signed_prekey_pq_id : ℕ
  pub one_time_ec_id : Option ℕ
  pub one_time_pq_id : Option ℕ

pub record InitialMessage : Type 0 where
  pub session_id : Bytes
  pub from_user : Bytes
  pub to_user : Bytes
  pub version : Bytes
  pub cipher_suite : Bytes
  pub initiator_identity_sign_public_key : Bytes
  pub initiator_identity_mldsa_public_key : Bytes
  pub initiator_identity_dh_public_key : Bytes
  pub initiator_ephemeral_ec_public_key : Bytes
  pub selected_prekeys : PrekeySelection
  pub kem_ciphertext_signed_pq : Bytes
  pub kem_ciphertext_one_time_pq : Option Bytes
  pub transcript_hash : Bytes
  pub handshake_signature_ed25519 : Bytes
  pub handshake_signature_mldsa65 : Bytes
  pub initial_nonce : Bytes
  pub initial_ciphertext : Bytes

pub record MessageHeader : Type 0 where
  pub sender_ratchet_public_key : Option Bytes
  pub previous_chain_length : ℕ
  pub message_number : ℕ
  pub flags : ℕ

pub record ChatMessage : Type 0 where
  pub session_id : Bytes
  pub from_user : Bytes
  pub to_user : Bytes
  pub header : MessageHeader
  pub nonce : Bytes
  pub ciphertext : Bytes

pub data EnvelopeType : Type 0 where
  initial_kind chat_kind : EnvelopeType

pub record Envelope : Type 0 where
  pub kind : EnvelopeType
  pub initial : Option InitialMessage
  pub chat : Option ChatMessage

abbrev pub from_initial : InitialMessage → Envelope
from_initial message = record { kind = initial_kind; initial = some message; chat = none }

abbrev pub from_chat : ChatMessage → Envelope
from_chat message = record { kind = chat_kind; initial = none; chat = some message }

pub record InboxEnvelope : Type 0 where
  pub inbox_id : ℕ
  pub envelope : Envelope
