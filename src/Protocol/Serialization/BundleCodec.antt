-- ===== src/Protocol/Serialization/BundleCodec.antt =====
-- The codec of a prekey bundle.
use pqchat.Prelude.{Bytes, refl, ◌++◌, ◌≡◌}
use pqchat.Protocol.PrekeyBundle.{PrekeyBundle}
use pqchat.Protocol.Serialization.Codec.{
  Codec, Decodes, Decodes-field, Decodes-last, Reads, Reads-field, Reads-last, Writes-field,
}
use pqchat.Protocol.Serialization.Fields.{
  BytesFit, StringFits, bytes_codec, bytes_text, string_codec,
}
use pqchat.Protocol.Serialization.Items.{CountedFits, counted_text}
use pqchat.Protocol.Serialization.PrekeyCodecs.{
  OneTimePrekeyEcFits, OneTimePrekeyPqFits, SignedPrekeyEcFits, SignedPrekeyPqFits,
  one_time_ec_codec, one_time_pq_codec, one_time_prekey_ec_text, one_time_prekey_pq_text,
  signed_prekey_ec_codec, signed_prekey_ec_text, signed_prekey_pq_codec, signed_prekey_pq_text,
}
use pqchat.Protocol.Serialization.Prekeys.{read_prekey_bundle, write_prekey_bundle}
use pqchat.Protocol.Serialization.Reader.{max_one_time_prekeys}
use pqchat.Protocol.Serialization.Writer.{Writes}

pub record PrekeyBundleFits (m : PrekeyBundle) : Type 0 where
  pub user_id : StringFits m.user_id
  pub identity_sign_public_key : BytesFit m.identity_sign_public_key
  pub identity_mldsa_public_key : BytesFit m.identity_mldsa_public_key
  pub identity_dh_public_key : BytesFit m.identity_dh_public_key
  pub signed_prekey_ec : SignedPrekeyEcFits m.signed_prekey_ec
  pub signed_prekey_pq : SignedPrekeyPqFits m.signed_prekey_pq
  pub one_time_ec : CountedFits max_one_time_prekeys OneTimePrekeyEcFits m.one_time_ec
  pub one_time_pq : CountedFits max_one_time_prekeys OneTimePrekeyPqFits m.one_time_pq
  pub bundle_signature_ed25519 : BytesFit m.bundle_signature_ed25519
  pub bundle_signature_mldsa65 : BytesFit m.bundle_signature_mldsa65
  pub version : StringFits m.version
  pub cipher_suite : StringFits m.cipher_suite

unfoldable pub prekey_bundle_text : PrekeyBundle → Bytes
prekey_bundle_text m =
    bytes_text m.user_id
    ++ (bytes_text m.identity_sign_public_key
        ++ (bytes_text m.identity_mldsa_public_key
            ++ (bytes_text m.identity_dh_public_key
                ++ (signed_prekey_ec_text m.signed_prekey_ec
                    ++ (signed_prekey_pq_text m.signed_prekey_pq
                        ++ (counted_text one_time_prekey_ec_text m.one_time_ec
                            ++ (counted_text one_time_prekey_pq_text m.one_time_pq
                                ++ (bytes_text m.bundle_signature_ed25519
                                    ++ (bytes_text m.bundle_signature_mldsa65
                                        ++ (bytes_text m.version
                                            ++ (bytes_text m.cipher_suite)))))))))))

prekey_bundle-Writes : (m : PrekeyBundle) → Writes (write_prekey_bundle m) (prekey_bundle_text m)
unfolding write_prekey_bundle prekey_bundle_text
prekey_bundle-Writes m = Writes-field string_codec m.user_id _ (
    Writes-field bytes_codec m.identity_sign_public_key _ (
      Writes-field bytes_codec m.identity_mldsa_public_key _ (
        Writes-field bytes_codec m.identity_dh_public_key _ (
          Writes-field signed_prekey_ec_codec m.signed_prekey_ec _ (
            Writes-field signed_prekey_pq_codec m.signed_prekey_pq _ (
              Writes-field one_time_ec_codec m.one_time_ec _ (
                Writes-field one_time_pq_codec m.one_time_pq _ (
                  Writes-field bytes_codec m.bundle_signature_ed25519 _ (
                    Writes-field bytes_codec m.bundle_signature_mldsa65 _ (
                      Writes-field string_codec m.version _
                        (string_codec.writes m.cipher_suite)))))))))))

prekey_bundle-Reads :
    (m : PrekeyBundle) → PrekeyBundleFits m → Reads read_prekey_bundle (prekey_bundle_text m) m
unfolding read_prekey_bundle prekey_bundle_text
prekey_bundle-Reads m h = Reads-field string_codec _ m.user_id _ m h.user_id (
    Reads-field bytes_codec _ m.identity_sign_public_key _ m h.identity_sign_public_key (
      Reads-field bytes_codec _ m.identity_mldsa_public_key _ m h.identity_mldsa_public_key (
        Reads-field bytes_codec _ m.identity_dh_public_key _ m h.identity_dh_public_key (
          Reads-field signed_prekey_ec_codec _ m.signed_prekey_ec _ m h.signed_prekey_ec (
            Reads-field signed_prekey_pq_codec _ m.signed_prekey_pq _ m h.signed_prekey_pq (
              Reads-field one_time_ec_codec _ m.one_time_ec _ m h.one_time_ec (
                Reads-field one_time_pq_codec _ m.one_time_pq _ m h.one_time_pq (
                  Reads-field bytes_codec _ m.bundle_signature_ed25519 _ m
                    h.bundle_signature_ed25519
                    (Reads-field bytes_codec _ m.bundle_signature_mldsa65 _ m
                      h.bundle_signature_mldsa65
                      (Reads-field string_codec _ m.version _ m h.version
                        (Reads-last string_codec _ m.cipher_suite h.cipher_suite)))))))))))

prekey_bundle_decodes :
    Decodes read_prekey_bundle (λ xs m. (xs ≡ prekey_bundle_text m) × PrekeyBundleFits m)
unfolding read_prekey_bundle prekey_bundle_text
prekey_bundle_decodes = Decodes-field string_codec _ _ λ v0 h0.
    Decodes-field bytes_codec _ _ λ v1 h1. Decodes-field bytes_codec _ _ λ v2 h2.
      Decodes-field bytes_codec _ _ λ v3 h3. Decodes-field signed_prekey_ec_codec _ _ λ v4 h4.
        Decodes-field signed_prekey_pq_codec _ _ λ v5 h5.
          Decodes-field one_time_ec_codec _ _ λ v6 h6. Decodes-field one_time_pq_codec _ _ λ v7 h7.
            Decodes-field bytes_codec _ _ λ v8 h8. Decodes-field bytes_codec _ _ λ v9 h9.
              Decodes-field string_codec _ _ λ v10 h10. Decodes-last string_codec _ _ λ v11 h11. (
                refl,
                record {
                  user_id = h0;
                  identity_sign_public_key = h1;
                  identity_mldsa_public_key = h2;
                  identity_dh_public_key = h3;
                  signed_prekey_ec = h4;
                  signed_prekey_pq = h5;
                  one_time_ec = h6;
                  one_time_pq = h7;
                  bundle_signature_ed25519 = h8;
                  bundle_signature_mldsa65 = h9;
                  version = h10;
                  cipher_suite = h11;
                },
              )

pub prekey_bundle_codec :
    Codec write_prekey_bundle read_prekey_bundle prekey_bundle_text PrekeyBundleFits
prekey_bundle_codec = record {
  writes = prekey_bundle-Writes;
  parses = record { reads = prekey_bundle-Reads; decodes = prekey_bundle_decodes };
}
