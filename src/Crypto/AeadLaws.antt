-- ===== src/Crypto/AeadLaws.antt =====
-- What Seal of src/crypto/aead.cpp returns, Open accepts.
use pqchat.Crypto.Aead.{open_sealed, seal, tag_size}
use pqchat.Crypto.Evp.{Evp}
use pqchat.Prelude.{
  Bytes, Option-cases, arith, drop, drop-append, false, inl, inr, length, length-append,
  le→ltb-false, ltb, refl, some, take, take-append, true, ◌++◌, ◌-◌, ◌==◌, ◌||◌, ◌≡◌,
}
use pqchat.Result.{ok}
use pqchat.Server.InMemory.State.{empty}

-- ChaCha20-Poly1305 of OpenSSL: a tag has 16 bytes, which SET_TAG takes, and what was encrypted is
-- decrypted with its tag.
pub record IsCipher {W : Type 0} (evp : Evp W) : Type 0 where
  pub tag_length :
      (key nonce ad plaintext tag : Bytes)
      → evp.get_tag key nonce ad plaintext ≡ some tag
      → length tag ≡ tag_size
  pub tag_set : (tag : Bytes) → length tag ≡ tag_size → evp.set_tag tag ≡ true
  pub decrypts :
      (key nonce ad plaintext body : Bytes)
      → evp.encrypt_update key nonce ad plaintext ≡ some body
      → evp.decrypt_update key nonce ad body ≡ some plaintext
  pub authentic :
      (key nonce ad plaintext body tag : Bytes)
      → evp.encrypt_update key nonce ad plaintext ≡ some body
      → evp.get_tag key nonce ad plaintext ≡ some tag
      → evp.decrypt_final key nonce ad body tag ≡ true

-- What a call of Seal that returns has asked OpenSSL.
record Sealed {W : Type 0} (evp : Evp W) (key nonce plaintext ad out : Bytes) : Type 0 where
  body : Bytes
  tag : Bytes
  encrypted : evp.encrypt_update key nonce ad plaintext ≡ some body
  tagged : evp.get_tag key nonce ad plaintext ≡ some tag
  whole : out ≡ body ++ tag
  key_fits : (length key == 32) ≡ true
  nonce_fits : (length nonce == 12) ≡ true
  ctx : evp.cipher_ctx_new ≡ true
  cipher : evp.cipher_init ≡ true
  ivlen : evp.set_ivlen ≡ true
  key_nonce : evp.set_key_nonce key nonce ≡ true
  ad_taken : (empty ad || evp.update_ad ad) ≡ true

module _ {W : Type 0} (evp : Evp W) (key nonce plaintext ad : Bytes) where
  seal-Sealed :
      (out : Bytes)
      → seal evp key nonce plaintext ad ≡ ok out
      → Sealed evp key nonce plaintext ad out
  unfolding seal
  seal-Sealed out e = elim (Option-cases (evp.encrypt_update key nonce ad plaintext)) [
    | inl failed ↦ absurd (ground arith)
    | inr (body, encrypted) ↦ elim (Option-cases (evp.get_tag key nonce ad plaintext)) [
      | inl failed ↦ absurd (ground arith)
      | inr (tag, tagged) ↦ record {
        body = body;
        tag = tag;
        encrypted = encrypted;
        tagged = tagged;
        whole = ground arith;
        key_fits = ground arith;
        nonce_fits = ground arith;
        ctx = ground arith;
        cipher = ground arith;
        ivlen = ground arith;
        key_nonce = ground arith;
        ad_taken = ground arith;
      }
    ]
  ]

  split_at :
      (body tag : Bytes)
      → length tag ≡ 16
      → (take (length (body ++ tag) - 16) (body ++ tag) ≡ body)
        × (drop (length (body ++ tag) - 16) (body ++ tag) ≡ tag)
  split_at body tag size =
      let n : length (body ++ tag) - 16 ≡ length body = omega (arith, length-append body tag) in
      rw n (take-append body tag, drop-append body tag)

  -- With a cipher that keeps what it promises, whatever Seal returns, Open turns back into the plaintext.
  pub open_sealed-seal :
      (out : Bytes)
      → IsCipher evp
      → seal evp key nonce plaintext ad ≡ ok out
      → open_sealed evp key nonce out ad ≡ ok plaintext
  unfolding open_sealed
  open_sealed-seal out law e =
      let s = seal-Sealed out e in
      let size = law.tag_length key nonce ad plaintext s.tag s.tagged in
      let parts = split_at s.body s.tag size in
      let long : ltb (length (s.body ++ s.tag)) 16 ≡ false =
        le→ltb-false _ _ (omega (arith, length-append s.body s.tag, size)) in
      rw
        (
          s.whole,
          parts.0,
          parts.1,
          s.key_fits,
          s.nonce_fits,
          long,
          s.ctx,
          s.cipher,
          s.ivlen,
          s.key_nonce,
          s.ad_taken,
          law.decrypts key nonce ad plaintext s.body s.encrypted,
          law.tag_set s.tag size,
          law.authentic key nonce ad plaintext s.body s.tag s.encrypted s.tagged,
        )
        refl
