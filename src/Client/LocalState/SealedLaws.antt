-- ===== src/Client/LocalState/SealedLaws.antt =====
-- What EncryptStatePayload of src/client/client.cpp writes, UnwrapStatePayload reads.
use pqchat.Client.Act.{prefix_error, prefixed-ok}
use pqchat.Client.Host.{Host}
use pqchat.Client.LocalState.Sealed.{
  derive_state_encryption_key, encrypt_state_payload, encrypt_with_salt,
  local_state_encrypted_magic, read_state_bytes, read_state_passphrase, read_wrapper, seal_payload,
  unseal_payload, unwrap_encrypted, unwrap_state_payload, wrapped,
}
use pqchat.Crypto.Aead.{seal}
use pqchat.Crypto.AeadLaws.{IsCipher, open_sealed-seal}
use pqchat.Prelude.{
  Bytes, Option-cases, String, [], ap, append-nil, arith, bytes_eq, inl, inr, length, length-append,
  none, refl, some, sym, true, ◌%◌, ◌++◌, ◌<◌, ◌==◌, ◌^◌, ◌∙◌, ◌≡◌, ◌≤◌, ◌⊎◌,
}
use pqchat.Protocol.Serialization.Codec.{
  At, Reads, Reads-bind, Reads-field, Reads-map, length-At, new_reader-At,
}
use pqchat.Protocol.Serialization.Fields.{bytes_text, read_slice-Reads}
use pqchat.Protocol.Serialization.Reader.{is_finished, new_reader}
use pqchat.Protocol.Serialization.Words.{IsU32-codec}
use pqchat.Protocol.Serialization.Writer.{Writes-seq, u32_text, write_bytes-Writes, write_string}
use pqchat.Result.{>>=-eq-ok, Result-cases, err, ok, ok-injective}

state_bytes-Reads : (v : Bytes) → length v < 2 ^ 32 → Reads read_state_bytes (bytes_text v) v
unfolding read_state_bytes
state_bytes-Reads v h =
    let kept : length v % 2 ^ 32 ≡ length v = omega arith in
    Reads-field IsU32-codec _ (length v % 2 ^ 32) v v (omega arith) (rw kept (read_slice-Reads v))

-- The fields after the magic.
wrapper_text : Bytes → Bytes → Bytes → Bytes
wrapper_text salt nonce ciphertext = bytes_text salt ++ (bytes_text nonce ++ bytes_text ciphertext)

wrapper-Reads :
    (salt nonce ciphertext : Bytes)
    → length salt < 2 ^ 32
    → length nonce < 2 ^ 32
    → length ciphertext < 2 ^ 32
    → Reads read_wrapper (wrapper_text salt nonce ciphertext) (salt, nonce, ciphertext)
unfolding wrapper_text
wrapper-Reads salt nonce ciphertext hs hn hc =
    Reads-bind read_state_bytes _ (bytes_text salt) _ salt _ (state_bytes-Reads salt hs) (
      Reads-bind read_state_bytes _ (bytes_text nonce) _ nonce _ (state_bytes-Reads nonce hn) (
        Reads-map (λ c. (salt, nonce, c)) (bytes_text ciphertext) ciphertext
          (state_bytes-Reads ciphertext hc)))

wrapped_text :
    {W : Type 0} (host : Host W) (salt nonce ciphertext : Bytes)
    → wrapped host salt nonce ciphertext
      ≡ bytes_text local_state_encrypted_magic ++ wrapper_text salt nonce ciphertext
unfolding wrapped write_string wrapper_text
wrapped_text host salt nonce ciphertext =
    (Writes-seq (bytes_text local_state_encrypted_magic) _
        (write_bytes-Writes local_state_encrypted_magic)
        (Writes-seq (bytes_text salt) _ (write_bytes-Writes salt) (
          Writes-seq (bytes_text nonce) _ (write_bytes-Writes nonce)
            (write_bytes-Writes ciphertext)))).appends
      []

module _ {W : Type 0} (host : Host W) where
  unwrap_wrapped :
      (salt nonce ciphertext : Bytes) (w : W)
      → length salt < 2 ^ 32
      → length nonce < 2 ^ 32
      → length ciphertext < 2 ^ 32
      → unwrap_state_payload host (wrapped host salt nonce ciphertext) w
        ≡ unseal_payload host salt nonce ciphertext w
  unfolding unwrap_state_payload unwrap_encrypted is_finished bytes_eq
  unwrap_wrapped salt nonce ciphertext w hs hn hc =
      let text = bytes_text local_state_encrypted_magic ++ wrapper_text salt nonce ciphertext in
      let start : At (new_reader text)
          (bytes_text local_state_encrypted_magic ++ wrapper_text salt nonce ciphertext) =
        new_reader-At text in
      let first =
        (state_bytes-Reads local_state_encrypted_magic (omega arith)).accepts (new_reader text)
          (wrapper_text salt nonce ciphertext) start in
      let here : At first.after (wrapper_text salt nonce ciphertext ++ []) =
        rw (append-nil (wrapper_text salt nonce ciphertext)) first.at in
      let second = (wrapper-Reads salt nonce ciphertext hs hn hc).accepts first.after [] here in
      let end : (second.after.pos == length second.after.bytes) ≡ true =
        ground (arith, length-At second.at) in
      rw (wrapped_text host salt nonce ciphertext, first.returns, second.returns, end) refl

  -- What a call that returned has drawn and derived.
  record Encrypted (payload bytes : Bytes) (w : W) : Type 0 where
    passphrase : Bytes
    salt : Bytes
    key : Bytes
    nonce : Bytes
    asked : read_state_passphrase host w ≡ ok passphrase
    derived : derive_state_encryption_key host passphrase salt ≡ ok key
    sealed : seal_payload host key salt nonce payload ≡ ok bytes

  with_salt-Encrypted :
      (payload bytes passphrase salt : Bytes) (w v after : W)
      → read_state_passphrase host w ≡ ok passphrase
      → encrypt_with_salt host payload passphrase salt v ≡ (ok bytes, after)
      → Encrypted payload bytes w
  unfolding encrypt_with_salt
  with_salt-Encrypted payload bytes passphrase salt w v after asked e =
      go (Result-cases (derive_state_encryption_key host passphrase salt))
        (Option-cases (host.evp.rand_bytes 12 v).0)
    where
      go :
          ((text : String) × (derive_state_encryption_key host passphrase salt ≡ err text))
            ⊎ ((key : Bytes) × (derive_state_encryption_key host passphrase salt ≡ ok key))
          → ((host.evp.rand_bytes 12 v).0 ≡ none)
            ⊎ ((nonce : Bytes) × ((host.evp.rand_bytes 12 v).0 ≡ some nonce))
          → Encrypted payload bytes w
      go (inl (text, d)) drawn =
          let failed : encrypt_with_salt host payload passphrase salt v ≡ (err text, v) =
            rw (encrypt_with_salt, d) refl in
          absurd (cc (failed, e))
      go (inr (key, d)) (inl none_drawn) =
          let failed : (encrypt_with_salt host payload passphrase salt v).0
              ≡ err "RAND_bytes failed" =
            rw (encrypt_with_salt, d, none_drawn) refl in
          absurd (cc (failed, e))
      go (inr (key, d)) (inr (nonce, drawn)) =
          let sealed : (encrypt_with_salt host payload passphrase salt v).0
              ≡ seal_payload host key salt nonce payload =
            rw (encrypt_with_salt, d, drawn) refl in
          record {
            passphrase = passphrase;
            salt = salt;
            key = key;
            nonce = nonce;
            asked = asked;
            derived = d;
            sealed = sym sealed ∙ ap (λ o. o.0) e;
          }

  encrypt_state_payload-Encrypted :
      (payload bytes : Bytes) (w after : W)
      → encrypt_state_payload host payload w ≡ (ok bytes, after)
      → Encrypted payload bytes w
  unfolding encrypt_state_payload
  encrypt_state_payload-Encrypted payload bytes w after e =
      go (Result-cases (read_state_passphrase host w)) (Option-cases (host.evp.rand_bytes 16 w).0)
    where
      go :
          ((text : String) × (read_state_passphrase host w ≡ err text))
            ⊎ ((passphrase : Bytes) × (read_state_passphrase host w ≡ ok passphrase))
          → ((host.evp.rand_bytes 16 w).0 ≡ none)
            ⊎ ((salt : Bytes) × ((host.evp.rand_bytes 16 w).0 ≡ some salt))
          → Encrypted payload bytes w
      go (inl (text, asked)) drawn =
          let failed : encrypt_state_payload host payload w ≡ (err text, w) =
            rw (encrypt_state_payload, asked) refl in
          absurd (cc (failed, e))
      go (inr (passphrase, asked)) (inl none_drawn) =
          let failed : (encrypt_state_payload host payload w).0 ≡ err "RAND_bytes failed" =
            rw (encrypt_state_payload, asked, none_drawn) refl in
          absurd (cc (failed, e))
      go (inr (passphrase, asked)) (inr (salt, drawn)) =
          let rest : encrypt_state_payload host payload w
              ≡ encrypt_with_salt host payload passphrase salt (host.evp.rand_bytes 16 w).1 =
            rw (encrypt_state_payload, asked, drawn) refl in
          with_salt-Encrypted payload bytes passphrase salt w _ after asked (sym rest ∙ e)

  salt_size :
      (passphrase salt key : Bytes)
      → derive_state_encryption_key host passphrase salt ≡ ok key
      → length salt ≡ 16
  unfolding derive_state_encryption_key
  salt_size passphrase salt key e = ground arith

  nonce_fits :
      (key nonce plaintext ad out : Bytes)
      → seal host.evp key nonce plaintext ad ≡ ok out
      → length nonce ≡ 12
  unfolding seal
  nonce_fits key nonce plaintext ad out e = ground arith

  wrapped-length :
      (salt nonce ciphertext : Bytes)
      → length ciphertext ≤ length (wrapped host salt nonce ciphertext)
  unfolding wrapper_text
  wrapped-length salt nonce ciphertext = rw (wrapped_text host salt nonce ciphertext) (
      omega (
        arith,
        length-append (bytes_text local_state_encrypted_magic) (wrapper_text salt nonce ciphertext),
        length-append (bytes_text salt) (bytes_text nonce ++ bytes_text ciphertext),
        length-append (bytes_text nonce) (bytes_text ciphertext),
        length-append (u32_text (length ciphertext % 2 ^ 32)) ciphertext,
      ))

  -- With a cipher that keeps what it promises, what the state was encrypted to is decrypted to the state,
  -- while the passphrase is the same.
  pub unwrap_state_payload-encrypt_state_payload :
      (payload bytes : Bytes) (w after later : W)
      → IsCipher host.evp
      → encrypt_state_payload host payload w ≡ (ok bytes, after)
      → read_state_passphrase host later ≡ read_state_passphrase host w
      → length bytes < 2 ^ 32
      → unwrap_state_payload host bytes later ≡ ok payload
  unfolding seal_payload unseal_payload
  unwrap_state_payload-encrypt_state_payload payload bytes w after later cipher e same small =
      let x = encrypt_state_payload-Encrypted payload bytes w after e in
      let (ciphertext, sealed, r) =
        >>=-eq-ok
          (prefix_error "state encryption failed: "
            (seal host.evp x.key x.nonce payload local_state_encrypted_magic))
          _ x.sealed in
      let is : wrapped host x.salt x.nonce ciphertext ≡ bytes = ok-injective r in
      let sealed_ok = prefixed-ok _ _ sealed in
      let opens =
        open_sealed-seal host.evp x.key x.nonce payload local_state_encrypted_magic ciphertext
          cipher sealed_ok in
      let unwrapped =
        unwrap_wrapped x.salt x.nonce ciphertext later
          (omega (arith, salt_size x.passphrase x.salt x.key x.derived))
          (omega (arith, nonce_fits x.key x.nonce payload _ ciphertext sealed_ok))
          (omega (arith, wrapped-length x.salt x.nonce ciphertext, ap length is, small)) in
      rw (← is, unwrapped, unseal_payload, same, x.asked, x.derived, opens) refl
