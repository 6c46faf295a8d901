-- ===== src/Protocol/BundleLaws.antt =====
-- What a bundle that passed verify_prekey_bundle_signatures of src/protocol/prekey_bundle.cpp carries.
use pqchat.Crypto.{OpenSsl, ed25519_verify-accepted, mldsa65_verify-accepted}
use pqchat.Prelude.{Bool-cases, String, arith, bytes_eq, bytes_eq_sound, inl, inr, refl, true, ◌≡◌}
use pqchat.Protocol.PrekeyBundle.{PrekeyBundle}
use pqchat.Protocol.SignInputs.{
  build_bundle_sign_input, build_ec_prekey_sign_input, build_pq_prekey_sign_input, cipher_suite,
  prefixed, protocol_version, verify_prekey_bundle_signatures, verify_signatures,
}
use pqchat.Result.{Result, err, ok, ◌>>=◌}

pub record BundleAccepted (o : OpenSsl) (bundle : PrekeyBundle) : Type 0 where
  pub version : bundle.version ≡ protocol_version
  pub suite : bundle.cipher_suite ≡ cipher_suite
  pub ec_ed25519 :
      o.ed25519_verify bundle.identity_sign_public_key
        (build_ec_prekey_sign_input bundle.signed_prekey_ec.id bundle.signed_prekey_ec.public_key)
        bundle.signed_prekey_ec.signature_ed25519
      ≡ true
  pub ec_mldsa65 :
      o.mldsa_verify bundle.identity_mldsa_public_key
        (build_ec_prekey_sign_input bundle.signed_prekey_ec.id bundle.signed_prekey_ec.public_key)
        bundle.signed_prekey_ec.signature_mldsa65
      ≡ true
  pub pq_ed25519 :
      o.ed25519_verify bundle.identity_sign_public_key
        (build_pq_prekey_sign_input bundle.signed_prekey_pq.id bundle.signed_prekey_pq.public_key)
        bundle.signed_prekey_pq.signature_ed25519
      ≡ true
  pub pq_mldsa65 :
      o.mldsa_verify bundle.identity_mldsa_public_key
        (build_pq_prekey_sign_input bundle.signed_prekey_pq.id bundle.signed_prekey_pq.public_key)
        bundle.signed_prekey_pq.signature_mldsa65
      ≡ true
  pub bundle_ed25519 :
      o.ed25519_verify bundle.identity_sign_public_key
        (build_bundle_sign_input bundle)
        bundle.bundle_signature_ed25519
      ≡ true
  pub bundle_mldsa65 :
      o.mldsa_verify bundle.identity_mldsa_public_key
        (build_bundle_sign_input bundle)
        bundle.bundle_signature_mldsa65
      ≡ true

prefixed-ok : (prefix : String) (r : Result (Unit {0})) → prefixed prefix r ≡ ok tt → r ≡ ok tt
prefixed-ok prefix (ok _) e = refl
prefixed-ok prefix (err text) e = cc

prefixed_first :
    (prefix : String) (r : Result (Unit {0})) (f : Unit {0} → Result (Unit {0}))
    → (prefixed prefix r >>= f) ≡ ok tt
    → (r ≡ ok tt) × (f tt ≡ ok tt)
prefixed_first prefix (ok _) f e = (refl, e)
prefixed_first prefix (err text) f e = cc

versions_checked :
    (o : OpenSsl) (bundle : PrekeyBundle)
    → verify_prekey_bundle_signatures o bundle ≡ ok tt
    → (bundle.version ≡ protocol_version)
      × (bundle.cipher_suite ≡ cipher_suite)
      × (verify_signatures o bundle ≡ ok tt)
unfolding verify_prekey_bundle_signatures
versions_checked o bundle e = elim (Bool-cases (bytes_eq bundle.version protocol_version)) [
  | inr wrong ↦ absurd (ground arith)
  | inl version ↦ elim (Bool-cases (bytes_eq bundle.cipher_suite cipher_suite)) [
    | inr wrong ↦ absurd (ground arith)
    | inl suite ↦ (bytes_eq_sound _ _ version, bytes_eq_sound _ _ suite, ground arith)
  ]
]

-- A bundle passes only if it is of the one version and suite, and OpenSSL accepts all six signatures:
-- under the identity's two keys, of the two signed prekeys and of the bundle.
pub verify_prekey_bundle_signatures-accepted :
    (o : OpenSsl) (bundle : PrekeyBundle)
    → verify_prekey_bundle_signatures o bundle ≡ ok tt
    → BundleAccepted o bundle
unfolding verify_signatures
verify_prekey_bundle_signatures-accepted o bundle e =
    let (version, suite, checks) = versions_checked o bundle e in
    let (a, after_a) = prefixed_first _ _ _ checks in
    let (b, after_b) = prefixed_first _ _ _ after_a in
    let (c, after_c) = prefixed_first _ _ _ after_b in
    let (d, after_d) = prefixed_first _ _ _ after_c in
    let (f, after_f) = prefixed_first _ _ _ after_d in
    record {
      version = version;
      suite = suite;
      ec_ed25519 = ed25519_verify-accepted o _ _ _ a;
      ec_mldsa65 = mldsa65_verify-accepted o _ _ _ b;
      pq_ed25519 = ed25519_verify-accepted o _ _ _ c;
      pq_mldsa65 = mldsa65_verify-accepted o _ _ _ d;
      bundle_ed25519 = ed25519_verify-accepted o _ _ _ f;
      bundle_mldsa65 = mldsa65_verify-accepted o _ _ _ (prefixed-ok _ _ after_f);
    }
