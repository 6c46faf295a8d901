-- ===== src/Crypto/Keys.antt =====
-- src/crypto/hkdf.cpp, x25519.cpp, ed25519.cpp, mlkem.cpp and mldsa.cpp: keys, signatures and
-- derivations.
use pqchat.Crypto.{OpenSsl, check, non_null}
use pqchat.Crypto.Evp.{EncapResult, Evp, KeyPair}
use pqchat.Prelude.{Bytes, List, Option, String, [], none, refl, some, ℕ, ◌++◌, ◌∷◌, ◌≡◌}
use pqchat.Result.{Result, err, ok, ◌>>◌}

-- `Concat`
unfoldable pub concat_parts : List Bytes → Bytes
concat_parts [] = []
concat_parts (part ∷ parts) = part ++ concat_parts parts

-- `if (!before.ok()) return`, then a call that may draw at random.
abbrev pub drawn_after :
    {W A : Type 0} → Result (Unit {0}) → String → (W → Option A × W) → W → Result A × W
drawn_after (err text) failed draw w = (err text, w)
drawn_after (ok _) failed draw w = let (drawn, w') = draw w in (non_null drawn failed, w')

-- What was drawn, where the call returned it.
pub drawn_after-drawn :
    {W A : Type 0} (before : Result (Unit {0})) (failed : String) (draw : W → Option A × W) (w : W)
    {a : A} {after : W}
    → drawn_after before failed draw w ≡ (ok a, after)
    → draw w ≡ (some a, after)
drawn_after-drawn (err text) failed draw w e = cc
drawn_after-drawn {W} {A} (ok _) failed draw w {a} {after} e = go (draw w) refl e
  where
    go :
        (o : Option A × W)
        → draw w ≡ o
        → ◌≡◌ {A = Result A × W} (non_null o.0 failed, o.1) (ok a, after)
        → draw w ≡ (some a, after)
    go (none, u) h e = cc
    go (some b, u) h e = cc

module _ {W : Type 0} (o : OpenSsl) (evp : Evp W) where
  unfoldable pub hkdf_sha256 : Bytes → Bytes → Bytes → ℕ → Result Bytes
  hkdf_sha256 ikm salt info output_len = do
    check evp.kdf_fetch "EVP_KDF_fetch(HKDF) failed"
    check evp.kdf_ctx_new "EVP_KDF_CTX_new failed"
    non_null (evp.kdf_derive ikm salt info output_len) "EVP_KDF_derive failed"

  -- X25519::GenerateKeyPair and Ed25519::GenerateKeyPair
  unfoldable pub x25519_generate : W → Result KeyPair × W
  x25519_generate =
      drawn_after
        (check evp.ctx_new_id "EVP_PKEY_CTX_new_id failed"
          >> check evp.keygen_init "EVP_PKEY_keygen_init failed")
        "EVP_PKEY_keygen failed" evp.x25519_keygen

  unfoldable pub ed25519_generate : W → Result KeyPair × W
  ed25519_generate =
      drawn_after
        (check evp.ctx_new_id "EVP_PKEY_CTX_new_id failed"
          >> check evp.keygen_init "EVP_PKEY_keygen_init failed")
        "EVP_PKEY_keygen failed" evp.ed25519_keygen

  -- X25519::SharedSecret
  unfoldable pub x25519_shared_secret : Bytes → Bytes → Result Bytes
  x25519_shared_secret private_key peer_public_key = do
    check (evp.x25519_private_key private_key) "new_raw_private_key failed"
    check (evp.x25519_public_key peer_public_key) "new_raw_public_key failed"
    check evp.pkey_ctx_new "EVP_PKEY_CTX_new failed"
    check evp.derive_init "EVP_PKEY_derive_init failed"
    check (evp.derive_set_peer peer_public_key) "EVP_PKEY_derive_set_peer failed"
    non_null (evp.derive private_key peer_public_key) "EVP_PKEY_derive failed"

  -- Ed25519::Sign
  unfoldable pub ed25519_sign : Bytes → Bytes → Result Bytes
  ed25519_sign private_key message = do
    check (evp.ed25519_private_key private_key) "new_raw_private_key failed"
    check o.md_ctx_new "EVP_MD_CTX_new failed"
    check (evp.sign_init private_key) "DigestSignInit failed"
    non_null (evp.ed25519_digest_sign private_key message) "DigestSign failed"

  -- MlKem768::GenerateKeyPair and MlDsa65::GenerateKeyPair
  unfoldable pub mlkem_generate : W → Result KeyPair × W
  mlkem_generate =
      drawn_after
        (check evp.mlkem_available "ML-KEM-768 not available in OpenSSL provider"
          >> check evp.keygen_init "EVP_PKEY_keygen_init failed")
        "EVP_PKEY_generate failed" evp.mlkem_keygen

  unfoldable pub mldsa_generate : W → Result KeyPair × W
  mldsa_generate =
      drawn_after
        (check o.mldsa_available "ML-DSA-65 not available in OpenSSL provider"
          >> check evp.keygen_init "EVP_PKEY_keygen_init failed")
        "EVP_PKEY_generate failed" evp.mldsa_keygen

  -- MlKem768::Encapsulate, PublicKeyFromRaw of mlkem.cpp included
  unfoldable pub mlkem_encapsulate : Bytes → W → Result EncapResult × W
  mlkem_encapsulate public_key =
      drawn_after
        (check evp.mlkem_available "ML-KEM-768 not available in OpenSSL provider"
          >> check o.fromdata_init "EVP_PKEY_fromdata_init failed"
          >> check (evp.mlkem_public_key public_key) "EVP_PKEY_fromdata failed for public key"
          >> check evp.pkey_ctx_new "EVP_PKEY_CTX_new failed"
          >> check evp.encapsulate_init "EVP_PKEY_encapsulate_init failed")
        "EVP_PKEY_encapsulate failed" (evp.encapsulate public_key)

  -- MlKem768::Decapsulate
  unfoldable pub mlkem_decapsulate : Bytes → Bytes → Result Bytes
  mlkem_decapsulate private_key ciphertext = do
    check evp.pkey_ctx_new "EVP_PKEY_CTX_new failed"
    check evp.decapsulate_init "EVP_PKEY_decapsulate_init failed"
    non_null (evp.decapsulate private_key ciphertext) "EVP_PKEY_decapsulate failed"

  -- MlDsa65::Sign
  unfoldable pub mldsa65_sign : Bytes → Bytes → W → Result Bytes × W
  mldsa65_sign private_key message =
      drawn_after
        (check o.md_ctx_new "EVP_MD_CTX_new failed"
          >> check (evp.sign_init private_key) "EVP_DigestSignInit_ex failed")
        "EVP_DigestSign failed" (evp.mldsa_digest_sign private_key message)

  -- MlKem768::FromPrivateKey and MlDsa65::FromPrivateKey
  unfoldable pub mlkem_from_private_key : Bytes → Bytes → Result KeyPair
  mlkem_from_private_key private_key public_key = do
    check evp.mlkem_available "ML-KEM-768 not available in OpenSSL provider"
    check o.fromdata_init "EVP_PKEY_fromdata_init failed"
    check (evp.mlkem_pair private_key public_key) "EVP_PKEY_fromdata failed for ML-KEM keypair"
    ok (record { private_key = private_key; public_key = public_key })

  unfoldable pub mldsa65_from_private_key : Bytes → Bytes → Result KeyPair
  mldsa65_from_private_key private_key public_key = do
    check o.mldsa_available "ML-DSA-65 not available in OpenSSL provider"
    check o.fromdata_init "EVP_PKEY_fromdata_init failed"
    check (evp.mldsa_pair private_key public_key) "EVP_PKEY_fromdata failed for ML-DSA keypair"
    ok (record { private_key = private_key; public_key = public_key })

  -- ExportPrivateKey of both
  unfoldable pub export_private_key : Bytes → Result Bytes
  export_private_key private_key =
      non_null (evp.octet_private_key private_key) "get private key failed"
