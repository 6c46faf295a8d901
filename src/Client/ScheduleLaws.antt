-- ===== src/Client/ScheduleLaws.antt =====
-- Both ends of the key schedule of src/client/client.cpp.
use pqchat.Client.Host.{Host}
use pqchat.Client.KeySchedule.{
  HandshakeKeys, Stepped, decrypt_chain_step, derive_handshake_keys, derive_key_material,
  derive_message_key_and_next_chain, encrypt_chain_step, split_handshake,
}
use pqchat.Crypto.Aead.{seal}
use pqchat.Crypto.AeadLaws.{IsCipher, open_sealed-seal}
use pqchat.Prelude.{Bytes, [], codes, false, inl, inr, refl, sym, true, ℕ, ◌≡◌}
use pqchat.Result.{>>=-eq-ok, Result, Result-cases, err, ok, ok-injective}

-- The keys of the other side: what one sends with, the other receives with.
abbrev pub mirrored : HandshakeKeys → HandshakeKeys
mirrored keys = record { root = keys.root; send = keys.recv; recv = keys.send }

abbrev pub mirrored_result : Result HandshakeKeys → Result HandshakeKeys
mirrored_result (ok keys) = ok (mirrored keys)
mirrored_result (err text) = err text

module _ {W : Type 0} (host : Host W) where
  -- From the same secrets and transcript, the responder derives the root key of the initiator, and the
  -- initiator's chain keys the other way round; where one derivation fails, so does the other.
  pub derive_handshake_keys-mirrored :
      (ikm transcript_hash : Bytes)
      → derive_handshake_keys host ikm transcript_hash false
        ≡ mirrored_result (derive_handshake_keys host ikm transcript_hash true)
  unfolding derive_handshake_keys split_handshake
  derive_handshake_keys-mirrored ikm transcript_hash =
      elim (Result-cases
        (derive_key_material host ikm [] (codes "pqchat_handshake_keys_v1") transcript_hash 96)) [
          | inl (text, e) ↦ rw e refl
          | inr (material, e) ↦ rw e refl
        ]

  -- With a cipher that keeps what it promises, a step of the sending chain is undone by the step of the
  -- receiving chain from the same chain key and counter, which leaves the same next chain key.
  pub decrypt_chain_step-encrypt_chain_step :
      (chain_key : Bytes) (counter : ℕ) (nonce plaintext ad : Bytes) (stepped : Stepped)
      → IsCipher host.evp
      → encrypt_chain_step host chain_key counter nonce plaintext ad ≡ ok stepped
      → decrypt_chain_step host chain_key counter nonce stepped.text ad
        ≡ ok (record { text = plaintext; chain_key = stepped.chain_key })
  unfolding encrypt_chain_step decrypt_chain_step
  decrypt_chain_step-encrypt_chain_step chain_key counter nonce plaintext ad stepped law e =
      let (keys, derived, rest) =
        >>=-eq-ok (derive_message_key_and_next_chain host chain_key counter) _ e in
      let (ciphertext, sealed, last) =
        >>=-eq-ok (seal host.evp keys.message_key nonce plaintext ad) _ rest in
      let same : stepped ≡ record { text = ciphertext; chain_key = keys.next_chain_key } =
        sym (ok-injective last) in
      rw
        (
          same,
          derived,
          open_sealed-seal host.evp keys.message_key nonce plaintext ad ciphertext law sealed,
        )
        refl
