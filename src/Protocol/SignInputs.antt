-- ===== src/Protocol/SignInputs.antt =====
-- What is signed and hashed: src/protocol/transport_auth.cpp, src/protocol/prekey_bundle.cpp and
-- src/protocol/messages.cpp. Their own AppendU32, AppendUint32, AppendU64, AppendBytes,
-- AppendWithLength and AppendString are the methods of the Writer again.
use pqchat.Crypto.{OpenSsl, ed25519_verify, mldsa65_verify, sha256}
use pqchat.Prelude.{
  Bytes, Option, String, bytes_eq, codes, concat, if◌then◌else◌, none, not, some, ℕ,
}
use pqchat.Protocol.Messages.{ChatMessage, PrekeySelection}
use pqchat.Protocol.PrekeyBundle.{PrekeyBundle}
use pqchat.Protocol.Serialization.Envelopes.{take_written}
use pqchat.Protocol.Serialization.Writer.{
  Write, write_bytes, write_string, write_u32, write_u64, ◌>>◌,
}
use pqchat.Result.{Result, err, ok, ◌>>=◌ as and_then}

abbrev pub protocol_version : Bytes
protocol_version = codes "pqchat-v1"

abbrev pub cipher_suite : Bytes
cipher_suite = codes "X25519+ML-KEM-768+ChaCha20-Poly1305+HKDF-SHA256"

unfoldable pub build_transport_auth_sign_input : Bytes → Bytes → Bytes → Bytes → ℕ → Bytes
build_transport_auth_sign_input user_id client_nonce server_nonce challenge_id expires_at_unix =
    take_written do
      write_string (codes "pqchat_transport_auth_v1")
      write_string user_id
      write_bytes client_nonce
      write_bytes server_nonce
      write_string challenge_id
      write_u64 expires_at_unix

unfoldable pub build_transport_register_sign_input : Bytes → Bytes → Bytes
build_transport_register_sign_input user_id new_key = take_written do
  write_string (codes "pqchat_transport_register_v1")
  write_string user_id
  write_bytes new_key

unfoldable pub build_transport_register_rotate_sign_input : Bytes → Bytes → Bytes → Bytes
build_transport_register_rotate_sign_input user_id existing_key new_key = take_written do
  write_string (codes "pqchat_transport_register_rotate_v1")
  write_string user_id
  write_bytes existing_key
  write_bytes new_key

unfoldable pub to_tagged : Bytes → ℕ → Bytes → Bytes
to_tagged tag key_id key = take_written do write_bytes tag; write_u32 key_id; write_bytes key

unfoldable pub build_ec_prekey_sign_input : ℕ → Bytes → Bytes
unfolding to_tagged
build_ec_prekey_sign_input key_id public_key =
    to_tagged (codes "pqchat_ec_prekey_v1") key_id public_key

unfoldable pub build_pq_prekey_sign_input : ℕ → Bytes → Bytes
unfolding to_tagged
build_pq_prekey_sign_input key_id public_key =
    to_tagged (codes "pqchat_pq_prekey_v1") key_id public_key

-- The one-time prekeys are not part of it.
unfoldable pub build_bundle_sign_input : PrekeyBundle → Bytes
build_bundle_sign_input bundle = take_written do
  write_string (codes "pqchat_bundle_sig_v2")
  write_string bundle.user_id
  write_bytes bundle.identity_sign_public_key
  write_bytes bundle.identity_mldsa_public_key
  write_bytes bundle.identity_dh_public_key
  write_u32 bundle.signed_prekey_ec.id
  write_bytes bundle.signed_prekey_ec.public_key
  write_bytes bundle.signed_prekey_ec.signature_ed25519
  write_bytes bundle.signed_prekey_ec.signature_mldsa65
  write_u32 bundle.signed_prekey_pq.id
  write_bytes bundle.signed_prekey_pq.public_key
  write_bytes bundle.signed_prekey_pq.signature_ed25519
  write_bytes bundle.signed_prekey_pq.signature_mldsa65
  write_string bundle.version
  write_string bundle.cipher_suite

-- InitialTranscriptFields of messages.h
pub record InitialTranscriptFields : Type 0 where
  pub session_id : Bytes
  pub from_user : Bytes
  pub to_user : Bytes
  pub version : Bytes
  pub cipher_suite : Bytes
  pub initiator_identity_sign_public_key : Bytes
  pub initiator_identity_mldsa_public_key : Bytes
  pub initiator_identity_dh_public_key : Bytes
  pub responder_identity_sign_public_key : Bytes
  pub responder_identity_mldsa_public_key : Bytes
  pub responder_identity_dh_public_key : Bytes
  pub initiator_ephemeral_ec_public_key : Bytes
  pub selected_prekeys : PrekeySelection
  pub kem_ciphertext_signed_pq : Bytes
  pub kem_ciphertext_one_time_pq : Option Bytes

-- `AppendUint32(out, v.has_value() ? 1 : 0); if (v.has_value()) …`: a flag of four bytes.
unfoldable pub append_flagged : {A : Type 0} → (A → Write) → Option A → Write
append_flagged write none = write_u32 0
append_flagged write (some v) = do write_u32 1; write v

unfoldable pub initial_transcript : InitialTranscriptFields → Bytes
initial_transcript fields = take_written do
  write_string (codes "pqchat_initial_transcript_v1")
  write_string fields.session_id
  write_string fields.from_user
  write_string fields.to_user
  write_string fields.version
  write_string fields.cipher_suite
  write_bytes fields.initiator_identity_sign_public_key
  write_bytes fields.initiator_identity_mldsa_public_key
  write_bytes fields.initiator_identity_dh_public_key
  write_bytes fields.responder_identity_sign_public_key
  write_bytes fields.responder_identity_mldsa_public_key
  write_bytes fields.responder_identity_dh_public_key
  write_bytes fields.initiator_ephemeral_ec_public_key
  write_u32 fields.selected_prekeys.signed_prekey_ec_id
  write_u32 fields.selected_prekeys.signed_prekey_pq_id
  append_flagged write_u32 fields.selected_prekeys.one_time_ec_id
  append_flagged write_u32 fields.selected_prekeys.one_time_pq_id
  write_bytes fields.kem_ciphertext_signed_pq
  append_flagged write_bytes fields.kem_ciphertext_one_time_pq

unfoldable pub chat_associated_data : ChatMessage → Bytes
chat_associated_data message = take_written do
  write_string (codes "pqchat_chat_ad_v1")
  write_string message.session_id
  write_string message.from_user
  write_string message.to_user
  write_u64 message.header.previous_chain_length
  write_u64 message.header.message_number
  write_u32 message.header.flags
  append_flagged write_bytes message.header.sender_ratchet_public_key

-- `if (!verify.ok()) return Err(prefix + verify.error())`
abbrev pub prefixed : String → Result (Unit {0}) → Result (Unit {0})
prefixed prefix (ok _) = ok tt
prefixed prefix (err text) = err (concat prefix text)

module _ (o : OpenSsl) where
  unfoldable pub compute_initial_transcript_hash : InitialTranscriptFields → Result Bytes
  compute_initial_transcript_hash fields =
      if not (bytes_eq fields.version protocol_version)
      then err "unsupported initial message version"
      else if not (bytes_eq fields.cipher_suite cipher_suite)
      then err "unsupported initial message cipher suite"
      else sha256 o (initial_transcript fields)

  unfoldable pub build_chat_associated_data : ChatMessage → Result Bytes
  build_chat_associated_data message = sha256 o (chat_associated_data message)

  -- The six checks after the version and the suite.
  unfoldable pub verify_signatures : PrekeyBundle → Result (Unit {0})
  verify_signatures bundle =
      let ec = bundle.signed_prekey_ec in
      let pq = bundle.signed_prekey_pq in
      let ec_input = build_ec_prekey_sign_input ec.id ec.public_key in
      let pq_input = build_pq_prekey_sign_input pq.id pq.public_key in
      let bundle_input = build_bundle_sign_input bundle in
      let sign = bundle.identity_sign_public_key in
      let mldsa = bundle.identity_mldsa_public_key in
      and_then
        (prefixed "signed_prekey_ec ed25519 signature invalid: "
          (ed25519_verify o sign ec_input ec.signature_ed25519))
        λ _.
          and_then
            (prefixed "signed_prekey_ec mldsa signature invalid: "
              (mldsa65_verify o mldsa ec_input ec.signature_mldsa65))
            λ _.
              and_then
                (prefixed "signed_prekey_pq ed25519 signature invalid: "
                  (ed25519_verify o sign pq_input pq.signature_ed25519))
                λ _.
                  and_then
                    (prefixed "signed_prekey_pq mldsa signature invalid: "
                      (mldsa65_verify o mldsa pq_input pq.signature_mldsa65))
                    λ _.
                      and_then
                        (prefixed "bundle ed25519 signature invalid: "
                          (ed25519_verify o sign bundle_input bundle.bundle_signature_ed25519))
                        λ _.
                          prefixed "bundle mldsa signature invalid: "
                            (mldsa65_verify o mldsa bundle_input bundle.bundle_signature_mldsa65)

  unfoldable pub verify_prekey_bundle_signatures : PrekeyBundle → Result (Unit {0})
  verify_prekey_bundle_signatures bundle =
      if not (bytes_eq bundle.version protocol_version)
      then err "unsupported bundle version"
      else if not (bytes_eq bundle.cipher_suite cipher_suite)
      then err "unsupported bundle cipher suite"
      else verify_signatures bundle
