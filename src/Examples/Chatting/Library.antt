-- ===== src/Examples/Chatting/Library.antt =====
-- The library that the examples of src/client/client.cpp use: it accepts each signature, seals by adding a
-- tag of zeros, and draws the same key each time.
use pqchat.Crypto.{OpenSsl}
use pqchat.Crypto.AeadLaws.{IsCipher}
use pqchat.Crypto.Evp.{Evp, KeyPair}
use pqchat.Prelude.{
  Bytes, [], ap, bytes_eq, length, refl, some, some-injective, suc, sym, true, zero, ℕ, ◌∷◌,
}

abbrev pub zeros : ℕ → Bytes
zeros zero = []
zeros (suc n) = 0 ∷ zeros n

-- n, n - 1, … 1
abbrev pub counted_down : ℕ → Bytes
counted_down zero = []
counted_down (suc n) = suc n ∷ counted_down n

abbrev pub one_key : ℕ → KeyPair
one_key k = record { private_key = k ∷ []; public_key = k ∷ [] }

abbrev pub toy_openssl : OpenSsl
toy_openssl = record {
  mldsa_available = true;
  fromdata_init = true;
  mldsa_public_key = λ key. true;
  ed25519_public_key = λ key. true;
  md_ctx_new = true;
  verify_init = λ key. true;
  mldsa_verify = λ key message signature. true;
  ed25519_verify = λ key message signature. true;
  hmac = λ key data_bytes. some [];
  sha256 = λ data_bytes. some (zeros 2);
  same_bytes = bytes_eq;
}

abbrev pub toy_evp : Evp (Unit {0})
toy_evp = record {
  cipher_ctx_new = true;
  cipher_init = true;
  set_ivlen = true;
  set_key_nonce = λ key nonce. true;
  update_ad = λ ad. true;
  encrypt_update = λ key nonce ad plaintext. some plaintext;
  encrypt_final = true;
  get_tag = λ key nonce ad plaintext. some (zeros 16);
  decrypt_update = λ key nonce ad body. some body;
  set_tag = λ tag. true;
  decrypt_final = λ key nonce ad body tag. true;
  kdf_fetch = true;
  kdf_ctx_new = true;
  kdf_derive = λ key salt info n. some (counted_down n);
  x25519_private_key = λ key. true;
  x25519_public_key = λ key. true;
  pkey_ctx_new = true;
  derive_init = true;
  derive_set_peer = λ key. true;
  derive = λ key peer. some (7 ∷ []);
  ctx_new_id = true;
  keygen_init = true;
  x25519_keygen = λ w. (some (one_key 9), w);
  ed25519_keygen = λ w. (some (one_key 9), w);
  mlkem_available = true;
  mlkem_keygen = λ w. (some (one_key 9), w);
  mldsa_keygen = λ w. (some (one_key 9), w);
  mlkem_public_key = λ key. true;
  mlkem_pair = λ priv key. true;
  mldsa_pair = λ priv key. true;
  encapsulate_init = true;
  encapsulate = λ key w. (some (record { ciphertext = 1 ∷ []; shared_secret = 1 ∷ [] }), w);
  decapsulate_init = true;
  decapsulate = λ key ciphertext. some ciphertext;
  ed25519_private_key = λ key. true;
  sign_init = λ key. true;
  ed25519_digest_sign = λ key message. some (2 ∷ []);
  mldsa_digest_sign = λ key message w. (some (3 ∷ []), w);
  octet_private_key = λ key. some key;
  rand_bytes = λ n w. (some (counted_down n), w);
}

pub toy_cipher : IsCipher toy_evp
toy_cipher = record {
  tag_length = λ key nonce ad plaintext tag e. ap length (sym (some-injective e));
  tag_set = λ tag h. refl;
  decrypts = λ key nonce ad plaintext body e. sym e;
  authentic = λ key nonce ad plaintext body tag e f. refl;
}
