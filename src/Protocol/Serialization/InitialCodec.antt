-- ===== src/Protocol/Serialization/InitialCodec.antt =====
-- The codec of the first message of a session.
use pqchat.Prelude.{Bytes, refl, ◌++◌, ◌≡◌}
use pqchat.Protocol.Messages.{InitialMessage}
use pqchat.Protocol.Serialization.Codec.{
  Codec, Decodes, Decodes-field, Decodes-last, Reads, Reads-field, Reads-last, Writes-field,
}
use pqchat.Protocol.Serialization.Fields.{
  BytesFit, OptionalFits, StringFits, bytes_codec, bytes_text, optional_bytes_codec, optional_text,
  string_codec,
}
use pqchat.Protocol.Serialization.MessageCodecs.{
  PrekeySelectionFits, prekey_selection_codec, prekey_selection_text,
}
use pqchat.Protocol.Serialization.Messages.{read_initial_message, write_initial_message}
use pqchat.Protocol.Serialization.Writer.{Writes}

pub record InitialMessageFits (m : InitialMessage) : Type 0 where
  pub session_id : StringFits m.session_id
  pub from_user : StringFits m.from_user
  pub to_user : StringFits m.to_user
  pub version : StringFits m.version
  pub cipher_suite : StringFits m.cipher_suite
  pub initiator_identity_sign_public_key : BytesFit m.initiator_identity_sign_public_key
  pub initiator_identity_mldsa_public_key : BytesFit m.initiator_identity_mldsa_public_key
  pub initiator_identity_dh_public_key : BytesFit m.initiator_identity_dh_public_key
  pub initiator_ephemeral_ec_public_key : BytesFit m.initiator_ephemeral_ec_public_key
  pub selected_prekeys : PrekeySelectionFits m.selected_prekeys
  pub kem_ciphertext_signed_pq : BytesFit m.kem_ciphertext_signed_pq
  pub kem_ciphertext_one_time_pq : OptionalFits BytesFit m.kem_ciphertext_one_time_pq
  pub transcript_hash : BytesFit m.transcript_hash
  pub handshake_signature_ed25519 : BytesFit m.handshake_signature_ed25519
  pub handshake_signature_mldsa65 : BytesFit m.handshake_signature_mldsa65
  pub initial_nonce : BytesFit m.initial_nonce
  pub initial_ciphertext : BytesFit m.initial_ciphertext

unfoldable pub initial_message_text : InitialMessage → Bytes
initial_message_text m =
    bytes_text m.session_id
    ++ (bytes_text m.from_user
        ++ (bytes_text m.to_user
            ++ (bytes_text m.version
                ++ (bytes_text m.cipher_suite
                    ++ (bytes_text m.initiator_identity_sign_public_key
                        ++ (bytes_text m.initiator_identity_mldsa_public_key
                            ++ (bytes_text m.initiator_identity_dh_public_key
                                ++ (bytes_text m.initiator_ephemeral_ec_public_key
                                    ++ (prekey_selection_text m.selected_prekeys
                                        ++ (bytes_text m.kem_ciphertext_signed_pq
                                            ++ (optional_text bytes_text
                                                  m.kem_ciphertext_one_time_pq
                                                ++ (bytes_text m.transcript_hash
                                                    ++ (bytes_text m.handshake_signature_ed25519
                                                        ++ (bytes_text m.handshake_signature_mldsa65
                                                            ++ (bytes_text m.initial_nonce
                                                            ++ (bytes_text
                                                            m.initial_ciphertext))))))))))))))))

initial_message-Writes :
    (m : InitialMessage) → Writes (write_initial_message m) (initial_message_text m)
unfolding write_initial_message initial_message_text
initial_message-Writes m = Writes-field string_codec m.session_id _ (
    Writes-field string_codec m.from_user _ (
      Writes-field string_codec m.to_user _ (
        Writes-field string_codec m.version _ (
          Writes-field string_codec m.cipher_suite _ (
            Writes-field bytes_codec m.initiator_identity_sign_public_key _ (
              Writes-field bytes_codec m.initiator_identity_mldsa_public_key _ (
                Writes-field bytes_codec m.initiator_identity_dh_public_key _ (
                  Writes-field bytes_codec m.initiator_ephemeral_ec_public_key _ (
                    Writes-field prekey_selection_codec m.selected_prekeys _ (
                      Writes-field bytes_codec m.kem_ciphertext_signed_pq _ (
                        Writes-field optional_bytes_codec m.kem_ciphertext_one_time_pq _ (
                          Writes-field bytes_codec m.transcript_hash _ (
                            Writes-field bytes_codec m.handshake_signature_ed25519 _ (
                              Writes-field bytes_codec m.handshake_signature_mldsa65 _ (
                                Writes-field bytes_codec m.initial_nonce _
                                  (bytes_codec.writes m.initial_ciphertext))))))))))))))))

initial_message-Reads :
    (m : InitialMessage)
    → InitialMessageFits m
    → Reads read_initial_message (initial_message_text m) m
unfolding read_initial_message initial_message_text
initial_message-Reads m h = Reads-field string_codec _ m.session_id _ m h.session_id (
    Reads-field string_codec _ m.from_user _ m h.from_user (
      Reads-field string_codec _ m.to_user _ m h.to_user (
        Reads-field string_codec _ m.version _ m h.version (
          Reads-field string_codec _ m.cipher_suite _ m h.cipher_suite (
            Reads-field bytes_codec _ m.initiator_identity_sign_public_key _ m
              h.initiator_identity_sign_public_key
              (Reads-field bytes_codec _ m.initiator_identity_mldsa_public_key _ m
                h.initiator_identity_mldsa_public_key
                (Reads-field bytes_codec _ m.initiator_identity_dh_public_key _ m
                  h.initiator_identity_dh_public_key
                  (Reads-field bytes_codec _ m.initiator_ephemeral_ec_public_key _ m
                    h.initiator_ephemeral_ec_public_key
                    (Reads-field prekey_selection_codec _ m.selected_prekeys _ m h.selected_prekeys
                      (Reads-field bytes_codec _ m.kem_ciphertext_signed_pq _ m
                        h.kem_ciphertext_signed_pq
                        (Reads-field optional_bytes_codec _ m.kem_ciphertext_one_time_pq _ m
                          h.kem_ciphertext_one_time_pq
                          (Reads-field bytes_codec _ m.transcript_hash _ m h.transcript_hash (
                            Reads-field bytes_codec _ m.handshake_signature_ed25519 _ m
                              h.handshake_signature_ed25519
                              (Reads-field bytes_codec _ m.handshake_signature_mldsa65 _ m
                                h.handshake_signature_mldsa65
                                (Reads-field bytes_codec _ m.initial_nonce _ m h.initial_nonce (
                                  Reads-last bytes_codec _ m.initial_ciphertext
                                    h.initial_ciphertext))))))))))))))))

initial_message_decodes :
    Decodes read_initial_message (λ xs m. (xs ≡ initial_message_text m) × InitialMessageFits m)
unfolding read_initial_message initial_message_text
initial_message_decodes = Decodes-field string_codec _ _ λ v0 h0.
    Decodes-field string_codec _ _ λ v1 h1. Decodes-field string_codec _ _ λ v2 h2.
      Decodes-field string_codec _ _ λ v3 h3. Decodes-field string_codec _ _ λ v4 h4.
        Decodes-field bytes_codec _ _ λ v5 h5. Decodes-field bytes_codec _ _ λ v6 h6.
          Decodes-field bytes_codec _ _ λ v7 h7. Decodes-field bytes_codec _ _ λ v8 h8.
            Decodes-field prekey_selection_codec _ _ λ v9 h9.
              Decodes-field bytes_codec _ _ λ v10 h10.
                Decodes-field optional_bytes_codec _ _ λ v11 h11.
                  Decodes-field bytes_codec _ _ λ v12 h12. Decodes-field bytes_codec _ _ λ v13 h13.
                    Decodes-field bytes_codec _ _ λ v14 h14.
                      Decodes-field bytes_codec _ _ λ v15 h15.
                        Decodes-last bytes_codec _ _ λ v16 h16. (
                          refl,
                          record {
                            session_id = h0;
                            from_user = h1;
                            to_user = h2;
                            version = h3;
                            cipher_suite = h4;
                            initiator_identity_sign_public_key = h5;
                            initiator_identity_mldsa_public_key = h6;
                            initiator_identity_dh_public_key = h7;
                            initiator_ephemeral_ec_public_key = h8;
                            selected_prekeys = h9;
                            kem_ciphertext_signed_pq = h10;
                            kem_ciphertext_one_time_pq = h11;
                            transcript_hash = h12;
                            handshake_signature_ed25519 = h13;
                            handshake_signature_mldsa65 = h14;
                            initial_nonce = h15;
                            initial_ciphertext = h16;
                          },
                        )

pub initial_message_codec :
    Codec write_initial_message read_initial_message initial_message_text InitialMessageFits
initial_message_codec = record {
  writes = initial_message-Writes;
  parses = record { reads = initial_message-Reads; decodes = initial_message_decodes };
}
