-- ===== src/Crypto/Evp.antt =====
-- The answers of OpenSSL to src/crypto/{aead,hkdf,x25519,ed25519,mlkem,mldsa}.cpp where they make keys,
-- sign, derive and encrypt, one field for each call whose outcome the code tests. `W` is the state of
-- the surroundings: what is drawn at random depends on it. A key object stands for its bytes, and the
-- two calls that ask for a size and then for the bytes count as one answer.
use pqchat.Prelude.{Bool, Bytes, Option, ℕ}

pub record KeyPair : Type 0 where
  pub private_key : Bytes
  pub public_key : Bytes

pub record EncapResult : Type 0 where
  pub ciphertext : Bytes
  pub shared_secret : Bytes

pub record Evp (W : Type 0) : Type 0 where
  -- EVP_CIPHER_CTX_new, EVP_EncryptInit_ex and EVP_DecryptInit_ex on the cipher, SET_IVLEN
  pub cipher_ctx_new : Bool
  pub cipher_init : Bool
  pub set_ivlen : Bool
  -- The same calls on the key and the nonce, and EVP_EncryptUpdate and EVP_DecryptUpdate on the
  -- associated data
  pub set_key_nonce : Bytes → Bytes → Bool
  pub update_ad : Bytes → Bool
  -- EVP_EncryptUpdate and EVP_EncryptFinal_ex: key, nonce, associated data, plaintext
  pub encrypt_update : Bytes → Bytes → Bytes → Bytes → Option Bytes
  pub encrypt_final : Bool
  pub get_tag : Bytes → Bytes → Bytes → Bytes → Option Bytes
  -- EVP_DecryptUpdate and EVP_DecryptFinal_ex: key, nonce, associated data, ciphertext, tag
  pub decrypt_update : Bytes → Bytes → Bytes → Bytes → Option Bytes
  pub set_tag : Bytes → Bool
  pub decrypt_final : Bytes → Bytes → Bytes → Bytes → Bytes → Bool
  -- EVP_KDF_fetch, EVP_KDF_CTX_new, EVP_KDF_derive: key, salt, info, length
  pub kdf_fetch : Bool
  pub kdf_ctx_new : Bool
  pub kdf_derive : Bytes → Bytes → Bytes → ℕ → Option Bytes
  -- EVP_PKEY_new_raw_private_key and EVP_PKEY_new_raw_public_key of X25519, EVP_PKEY_CTX_new, the
  -- steps of EVP_PKEY_derive
  pub x25519_private_key : Bytes → Bool
  pub x25519_public_key : Bytes → Bool
  pub pkey_ctx_new : Bool
  pub derive_init : Bool
  pub derive_set_peer : Bytes → Bool
  pub derive : Bytes → Bytes → Option Bytes
  -- EVP_PKEY_CTX_new_id, EVP_PKEY_keygen_init, EVP_PKEY_keygen and the raw keys of the outcome
  pub ctx_new_id : Bool
  pub keygen_init : Bool
  pub x25519_keygen : W → Option KeyPair × W
  pub ed25519_keygen : W → Option KeyPair × W
  -- EVP_PKEY_CTX_new_from_name("ML-KEM-768"), EVP_PKEY_generate of both kinds
  pub mlkem_available : Bool
  pub mlkem_keygen : W → Option KeyPair × W
  pub mldsa_keygen : W → Option KeyPair × W
  -- EVP_PKEY_fromdata on a public key and on a pair
  pub mlkem_public_key : Bytes → Bool
  pub mlkem_pair : Bytes → Bytes → Bool
  pub mldsa_pair : Bytes → Bytes → Bool
  -- EVP_PKEY_encapsulate_init, EVP_PKEY_encapsulate, EVP_PKEY_decapsulate_init, EVP_PKEY_decapsulate
  pub encapsulate_init : Bool
  pub encapsulate : Bytes → W → Option EncapResult × W
  pub decapsulate_init : Bool
  pub decapsulate : Bytes → Bytes → Option Bytes
  -- EVP_DigestSignInit(_ex) and EVP_DigestSign: private key, message
  pub ed25519_private_key : Bytes → Bool
  pub sign_init : Bytes → Bool
  pub ed25519_digest_sign : Bytes → Bytes → Option Bytes
  pub mldsa_digest_sign : Bytes → Bytes → W → Option Bytes × W
  -- EVP_PKEY_get_octet_string_param(OSSL_PKEY_PARAM_PRIV_KEY)
  pub octet_private_key : Bytes → Option Bytes
  -- RAND_bytes
  pub rand_bytes : ℕ → W → Option Bytes × W
