-- ===== src/Crypto/Aead.antt =====
-- src/crypto/aead.cpp: ChaCha20-Poly1305. The output buffer has the size of the plaintext and of the tag:
-- the cipher is a stream cipher, and writes as many bytes as it reads.
use pqchat.Crypto.{check, non_null}
use pqchat.Crypto.Evp.{Evp}
use pqchat.Prelude.{
  Bytes, [], drop, length, ltb, not, suc, take, zero, ℕ, ◌%◌, ◌++◌, ◌-◌, ◌/◌, ◌==◌, ◌^◌, ◌||◌, ◌∷◌,
}
use pqchat.Result.{Result, ok, ◌>>=◌, ◌>>◌}
use pqchat.Server.InMemory.State.{empty}

abbrev key_size : ℕ
key_size = 32

abbrev nonce_size : ℕ
nonce_size = 12

abbrev pub tag_size : ℕ
tag_size = 16

module _ {W : Type 0} (evp : Evp W) where
  unfoldable pub seal : Bytes → Bytes → Bytes → Bytes → Result Bytes
  seal key nonce plaintext ad = do
    check (length key == key_size) "invalid key size"
    check (length nonce == nonce_size) "invalid nonce size"
    check evp.cipher_ctx_new "EVP_CIPHER_CTX_new failed"
    check evp.cipher_init "EncryptInit failed"
    check evp.set_ivlen "SET_IVLEN failed"
    check (evp.set_key_nonce key nonce) "EncryptInit key/nonce failed"
    check (empty ad || evp.update_ad ad) "EncryptUpdate AD failed"
    out ← non_null (evp.encrypt_update key nonce ad plaintext) "EncryptUpdate failed"
    check evp.encrypt_final "EncryptFinal failed"
    tag ← non_null (evp.get_tag key nonce ad plaintext) "GET_TAG failed"
    ok (out ++ tag)

  -- `Open`
  unfoldable pub open_sealed : Bytes → Bytes → Bytes → Bytes → Result Bytes
  open_sealed key nonce ciphertext ad =
      let tag_offset = length ciphertext - tag_size in
      let body = take tag_offset ciphertext in
      let tag = drop tag_offset ciphertext in
      do
        check (length key == key_size) "invalid key size"
        check (length nonce == nonce_size) "invalid nonce size"
        check (not (ltb (length ciphertext) tag_size)) "ciphertext too short"
        check evp.cipher_ctx_new "EVP_CIPHER_CTX_new failed"
        check evp.cipher_init "DecryptInit failed"
        check evp.set_ivlen "SET_IVLEN failed"
        check (evp.set_key_nonce key nonce) "DecryptInit key/nonce failed"
        check (empty ad || evp.update_ad ad) "DecryptUpdate AD failed"
        plaintext ← non_null (evp.decrypt_update key nonce ad body) "DecryptUpdate failed"
        check (evp.set_tag tag) "SET_TAG failed"
        check (evp.decrypt_final key nonce ad body tag) "DecryptFinal failed"
        ok plaintext

-- The loop of NonceFromCounter, which fills the nonce from its end: the bytes written so far, by the
-- rounds left.
abbrev nonce_octets : ℕ → ℕ → Bytes → Bytes
nonce_octets zero counter out = out
nonce_octets (suc n) counter out = nonce_octets n (counter / 2 ^ 8) (counter % 256 ∷ out)

unfoldable pub nonce_from_counter : ℕ → Bytes
nonce_from_counter counter = 0 ∷ 0 ∷ 0 ∷ 0 ∷ nonce_octets 8 counter []
