-- ===== src/Protocol/BundleInputLaws.antt =====
-- Which fields the two signatures of a bundle cover: BuildBundleSignInput of
-- src/protocol/prekey_bundle.cpp.
use pqchat.Prelude.{Bytes, IsU32, [], ap, codes, refl, ℕ, ◌≡◌}
use pqchat.Protocol.Determined.{
  Determined-pair, Determined-whole, FieldFits, IsU32-Determined, bytes_Determined,
  string_Determined,
}
use pqchat.Protocol.PrekeyBundle.{PrekeyBundle}
use pqchat.Protocol.SignInputLaws.{tag_fits}
use pqchat.Protocol.SignInputs.{build_bundle_sign_input}

pub record BundleFits (v : PrekeyBundle) : Type 0 where
  pub user : FieldFits v.user_id
  pub sign : FieldFits v.identity_sign_public_key
  pub mldsa : FieldFits v.identity_mldsa_public_key
  pub dh : FieldFits v.identity_dh_public_key
  pub ec_id : IsU32 v.signed_prekey_ec.id
  pub ec_key : FieldFits v.signed_prekey_ec.public_key
  pub ec_ed25519 : FieldFits v.signed_prekey_ec.signature_ed25519
  pub ec_mldsa65 : FieldFits v.signed_prekey_ec.signature_mldsa65
  pub pq_id : IsU32 v.signed_prekey_pq.id
  pub pq_key : FieldFits v.signed_prekey_pq.public_key
  pub pq_ed25519 : FieldFits v.signed_prekey_pq.signature_ed25519
  pub pq_mldsa65 : FieldFits v.signed_prekey_pq.signature_mldsa65
  pub version : FieldFits v.version
  pub suite : FieldFits v.cipher_suite

abbrev pub signed_part : PrekeyBundle → PrekeyBundle
signed_part v = record v {
  one_time_ec = [];
  one_time_pq = [];
  bundle_signature_ed25519 = [];
  bundle_signature_mldsa65 = [];
}

-- The bytes that a bundle's two signatures cover determine the bundle, all but the signatures
-- themselves and the one-time prekeys, for fields whose lengths fit 32 bits.
pub build_bundle_sign_input_injective :
    (v w : PrekeyBundle)
    → BundleFits v
    → BundleFits w
    → build_bundle_sign_input v ≡ build_bundle_sign_input w
    → signed_part v ≡ signed_part w
unfolding build_bundle_sign_input
build_bundle_sign_input_injective v w hv hw e = ap rebuild (
    Determined-whole
      (Determined-pair string_Determined (
        Determined-pair string_Determined (
          Determined-pair bytes_Determined (
            Determined-pair bytes_Determined (
              Determined-pair bytes_Determined (
                Determined-pair IsU32-Determined (
                  Determined-pair bytes_Determined (
                    Determined-pair bytes_Determined (
                      Determined-pair bytes_Determined (
                        Determined-pair IsU32-Determined (
                          Determined-pair bytes_Determined (
                            Determined-pair bytes_Determined (
                              Determined-pair bytes_Determined
                                (Determined-pair string_Determined string_Determined))))))))))))))
      (tag, parts v) (tag, parts w) (fits, all v hv) (fits, all w hw) e)
  where
    tag : Bytes
    tag = codes "pqchat_bundle_sig_v2"

    fits : FieldFits tag
    fits = tag_fits tag refl refl

    parts :
        PrekeyBundle
        → (Bytes
            × (Bytes
                × (Bytes
                    × (Bytes
                        × (ℕ
                            × (Bytes
                                × (Bytes
                                    × (Bytes
                                        × (ℕ
                                            × (Bytes × (Bytes × (Bytes × (Bytes × Bytes)))))))))))))
    parts v = (
      v.user_id,
      (
        v.identity_sign_public_key,
        (
          v.identity_mldsa_public_key,
          (
            v.identity_dh_public_key,
            (
              v.signed_prekey_ec.id,
              (
                v.signed_prekey_ec.public_key,
                (
                  v.signed_prekey_ec.signature_ed25519,
                  (
                    v.signed_prekey_ec.signature_mldsa65,
                    (
                      v.signed_prekey_pq.id,
                      (
                        v.signed_prekey_pq.public_key,
                        (
                          v.signed_prekey_pq.signature_ed25519,
                          (v.signed_prekey_pq.signature_mldsa65, (v.version, v.cipher_suite)),
                        ),
                      ),
                    ),
                  ),
                ),
              ),
            ),
          ),
        ),
      ),
    )

    all :
        (v : PrekeyBundle)
        → BundleFits v
        → ((FieldFits v.user_id)
            × ((FieldFits v.identity_sign_public_key)
                × ((FieldFits v.identity_mldsa_public_key)
                    × ((FieldFits v.identity_dh_public_key)
                        × ((IsU32 v.signed_prekey_ec.id)
                            × ((FieldFits v.signed_prekey_ec.public_key)
                                × ((FieldFits v.signed_prekey_ec.signature_ed25519)
                                    × ((FieldFits v.signed_prekey_ec.signature_mldsa65)
                                        × ((IsU32 v.signed_prekey_pq.id)
                                            × ((FieldFits v.signed_prekey_pq.public_key)
                                                × ((FieldFits v.signed_prekey_pq.signature_ed25519)
                                                    × ((FieldFits
                                                          v.signed_prekey_pq.signature_mldsa65)
                                                        × ((FieldFits v.version)
                                                            × (FieldFits
                                                            v.cipher_suite))))))))))))))
    all v h = (
      h.user,
      (
        h.sign,
        (
          h.mldsa,
          (
            h.dh,
            (
              h.ec_id,
              (
                h.ec_key,
                (
                  h.ec_ed25519,
                  (
                    h.ec_mldsa65,
                    (h.pq_id, (h.pq_key, (h.pq_ed25519, (h.pq_mldsa65, (h.version, h.suite))))),
                  ),
                ),
              ),
            ),
          ),
        ),
      ),
    )

    rebuild :
        Bytes
          × (Bytes
              × (Bytes
                  × (Bytes
                      × (Bytes
                          × (ℕ
                              × (Bytes
                                  × (Bytes
                                      × (Bytes
                                          × (ℕ
                                              × (Bytes
                                                  × (Bytes × (Bytes × (Bytes × Bytes)))))))))))))
        → PrekeyBundle
    rebuild
          (
            t,
            (
              user,
              (
                sign,
                (
                  mldsa,
                  (
                    dh,
                    (
                      ec_id,
                      (
                        ec_key,
                        (
                          ec_ed25519,
                          (
                            ec_mldsa65,
                            (pq_id, (pq_key, (pq_ed25519, (pq_mldsa65, (version, suite))))),
                          ),
                        ),
                      ),
                    ),
                  ),
                ),
              ),
            ),
          ) =
        record {
          user_id = user;
          identity_sign_public_key = sign;
          identity_mldsa_public_key = mldsa;
          identity_dh_public_key = dh;
          signed_prekey_ec = record {
            id = ec_id;
            public_key = ec_key;
            signature_ed25519 = ec_ed25519;
            signature_mldsa65 = ec_mldsa65;
          };
          signed_prekey_pq = record {
            id = pq_id;
            public_key = pq_key;
            signature_ed25519 = pq_ed25519;
            signature_mldsa65 = pq_mldsa65;
          };
          one_time_ec = [];
          one_time_pq = [];
          bundle_signature_ed25519 = [];
          bundle_signature_mldsa65 = [];
          version = version;
          cipher_suite = suite;
        }
