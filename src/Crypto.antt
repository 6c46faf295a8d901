-- ===== src/Crypto.antt =====
-- src/crypto: the checks that the protocol makes, over OpenSSL.
-- `OpenSsl` holds the answers of the library, one field for each call whose outcome the code tests.
-- An answer is a function of the arguments that are data: allocation counts as one answer.
pub mod Evp
pub mod Aead
pub mod Keys
pub mod AeadLaws
use pqchat.Prelude.{Bool, Bytes, Option, String, arith, false, none, some, true, ◌≡◌}
use pqchat.Result.{Result, err, ok, ◌>>=◌, ◌>>◌}

pub record OpenSsl : Type 0 where
  -- EVP_PKEY_CTX_new_from_name("ML-DSA-65"), EVP_PKEY_fromdata_init
  pub mldsa_available : Bool
  pub fromdata_init : Bool
  -- EVP_PKEY_fromdata on a public key; EVP_PKEY_new_raw_public_key
  pub mldsa_public_key : Bytes → Bool
  pub ed25519_public_key : Bytes → Bool
  -- EVP_MD_CTX_new, EVP_DigestVerifyInit(_ex) on a key
  pub md_ctx_new : Bool
  pub verify_init : Bytes → Bool
  -- EVP_DigestVerify: key, message, signature
  pub mldsa_verify : Bytes → Bytes → Bytes → Bool
  pub ed25519_verify : Bytes → Bytes → Bytes → Bool
  -- HMAC(EVP_sha256()) and SHA256: no value is a null pointer
  pub hmac : Bytes → Bytes → Option Bytes
  pub sha256 : Bytes → Option Bytes
  -- CRYPTO_memcmp(a, b, size) == 0, for two sequences of one size
  pub same_bytes : Bytes → Bytes → Bool

-- `if (!answer) return Err(text)`
abbrev pub check : Bool → String → Result (Unit {0})
check true text = ok tt
check false text = err text

abbrev pub non_null : {A : Type 0} → Option A → String → Result A
non_null none text = err text
non_null (some a) text = ok a

module _ (o : OpenSsl) where
  -- PublicKeyFromRaw of mldsa.cpp. The key object stands for its bytes.
  unfoldable pub public_key_from_raw : Bytes → Result Bytes
  public_key_from_raw public_key = do
    check o.mldsa_available "ML-DSA-65 not available in OpenSSL provider"
    check o.fromdata_init "EVP_PKEY_fromdata_init failed"
    check (o.mldsa_public_key public_key) "EVP_PKEY_fromdata failed for ML-DSA public key"
    ok public_key

  -- MlDsa65::Verify
  unfoldable pub mldsa65_verify : Bytes → Bytes → Bytes → Result (Unit {0})
  unfolding public_key_from_raw
  mldsa65_verify public_key message signature = do
    key ← public_key_from_raw public_key
    check o.md_ctx_new "EVP_MD_CTX_new failed"
    check (o.verify_init key) "EVP_DigestVerifyInit_ex failed"
    check (o.mldsa_verify key message signature) "ML-DSA signature verification failed"

  -- Ed25519::Verify
  unfoldable pub ed25519_verify : Bytes → Bytes → Bytes → Result (Unit {0})
  ed25519_verify public_key message signature = do
    check (o.ed25519_public_key public_key) "new_raw_public_key failed"
    check o.md_ctx_new "EVP_MD_CTX_new failed"
    check (o.verify_init public_key) "DigestVerifyInit failed"
    check (o.ed25519_verify public_key message signature) "signature verification failed"

  -- HmacSha256 of hkdf.cpp
  unfoldable pub hmac_sha256 : Bytes → Bytes → Result Bytes
  hmac_sha256 key data_bytes = non_null (o.hmac key data_bytes) "HMAC failed"

  -- Sha256 of hash.cpp
  unfoldable pub sha256 : Bytes → Result Bytes
  sha256 data_bytes = non_null (o.sha256 data_bytes) "SHA256 failed"

  -- What OpenSSL accepted, when a check succeeded.
  pub mldsa65_verify-accepted :
      (key message signature : Bytes)
      → mldsa65_verify key message signature ≡ ok tt
      → o.mldsa_verify key message signature ≡ true
  unfolding mldsa65_verify
  mldsa65_verify-accepted key message signature e = ground arith

  pub ed25519_verify-accepted :
      (key message signature : Bytes)
      → ed25519_verify key message signature ≡ ok tt
      → o.ed25519_verify key message signature ≡ true
  unfolding ed25519_verify
  ed25519_verify-accepted key message signature e = ground arith
