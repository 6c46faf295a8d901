-- ===== src/Protocol/Serialization/Messages.antt =====
-- The messages of a session: src/protocol/serialization.cpp, WritePrekeySelection to ReadChatMessage.
use pqchat.Protocol.Messages.{ChatMessage, InitialMessage, MessageHeader, PrekeySelection}
use pqchat.Protocol.Serialization.Reader.{
  Read, pure, read_bytes, read_optional_bytes, read_optional_u32, read_string, read_u32, read_u64,
  ◌>>=◌,
}
use pqchat.Protocol.Serialization.Writer.{
  Write, write_bytes, write_optional_bytes, write_optional_u32, write_string, write_u32, write_u64,
  ◌>>◌,
}

unfoldable pub write_prekey_selection : PrekeySelection → Write
write_prekey_selection m = do
  write_u32 m.signed_prekey_ec_id
  write_u32 m.signed_prekey_pq_id
  write_optional_u32 m.one_time_ec_id
  write_optional_u32 m.one_time_pq_id

unfoldable pub read_prekey_selection : Read PrekeySelection
read_prekey_selection = do
  signed_prekey_ec_id ← read_u32
  signed_prekey_pq_id ← read_u32
  one_time_ec_id ← read_optional_u32
  one_time_pq_id ← read_optional_u32
  pure (record {
    signed_prekey_ec_id = signed_prekey_ec_id;
    signed_prekey_pq_id = signed_prekey_pq_id;
    one_time_ec_id = one_time_ec_id;
    one_time_pq_id = one_time_pq_id;
  })

unfoldable pub write_message_header : MessageHeader → Write
write_message_header m = do
  write_optional_bytes m.sender_ratchet_public_key
  write_u64 m.previous_chain_length
  write_u64 m.message_number
  write_u32 m.flags

unfoldable pub read_message_header : Read MessageHeader
read_message_header = do
  sender_ratchet_public_key ← read_optional_bytes
  previous_chain_length ← read_u64
  message_number ← read_u64
  flags ← read_u32
  pure (record {
    sender_ratchet_public_key = sender_ratchet_public_key;
    previous_chain_length = previous_chain_length;
    message_number = message_number;
    flags = flags;
  })

unfoldable pub write_initial_message : InitialMessage → Write
write_initial_message m = do
  write_string m.session_id
  write_string m.from_user
  write_string m.to_user
  write_string m.version
  write_string m.cipher_suite
  write_bytes m.initiator_identity_sign_public_key
  write_bytes m.initiator_identity_mldsa_public_key
  write_bytes m.initiator_identity_dh_public_key
  write_bytes m.initiator_ephemeral_ec_public_key
  write_prekey_selection m.selected_prekeys
  write_bytes m.kem_ciphertext_signed_pq
  write_optional_bytes m.kem_ciphertext_one_time_pq
  write_bytes m.transcript_hash
  write_bytes m.handshake_signature_ed25519
  write_bytes m.handshake_signature_mldsa65
  write_bytes m.initial_nonce
  write_bytes m.initial_ciphertext

unfoldable pub read_initial_message : Read InitialMessage
read_initial_message = do
  session_id ← read_string
  from_user ← read_string
  to_user ← read_string
  version ← read_string
  cipher_suite ← read_string
  initiator_identity_sign_public_key ← read_bytes
  initiator_identity_mldsa_public_key ← read_bytes
  initiator_identity_dh_public_key ← read_bytes
  initiator_ephemeral_ec_public_key ← read_bytes
  selected_prekeys ← read_prekey_selection
  kem_ciphertext_signed_pq ← read_bytes
  kem_ciphertext_one_time_pq ← read_optional_bytes
  transcript_hash ← read_bytes
  handshake_signature_ed25519 ← read_bytes
  handshake_signature_mldsa65 ← read_bytes
  initial_nonce ← read_bytes
  initial_ciphertext ← read_bytes
  pure (record {
    session_id = session_id;
    from_user = from_user;
    to_user = to_user;
    version = version;
    cipher_suite = cipher_suite;
    initiator_identity_sign_public_key = initiator_identity_sign_public_key;
    initiator_identity_mldsa_public_key = initiator_identity_mldsa_public_key;
    initiator_identity_dh_public_key = initiator_identity_dh_public_key;
    initiator_ephemeral_ec_public_key = initiator_ephemeral_ec_public_key;
    selected_prekeys = selected_prekeys;
    kem_ciphertext_signed_pq = kem_ciphertext_signed_pq;
    kem_ciphertext_one_time_pq = kem_ciphertext_one_time_pq;
    transcript_hash = transcript_hash;
    handshake_signature_ed25519 = handshake_signature_ed25519;
    handshake_signature_mldsa65 = handshake_signature_mldsa65;
    initial_nonce = initial_nonce;
    initial_ciphertext = initial_ciphertext;
  })

unfoldable pub write_chat_message : ChatMessage → Write
write_chat_message m = do
  write_string m.session_id
  write_string m.from_user
  write_string m.to_user
  write_message_header m.header
  write_bytes m.nonce
  write_bytes m.ciphertext

unfoldable pub read_chat_message : Read ChatMessage
read_chat_message = do
  session_id ← read_string
  from_user ← read_string
  to_user ← read_string
  header ← read_message_header
  nonce ← read_bytes
  ciphertext ← read_bytes
  pure (record {
    session_id = session_id;
    from_user = from_user;
    to_user = to_user;
    header = header;
    nonce = nonce;
    ciphertext = ciphertext;
  })
