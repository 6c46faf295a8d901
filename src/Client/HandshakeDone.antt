-- ===== src/Client/HandshakeDone.antt =====
-- The first message of InitiateSession at HandleInitialMessage of src/client/client.cpp.
use pqchat.Client.Accept.{first_received, responder_session}
use pqchat.Client.Act.{prefix_error, prefixed-ok}
use pqchat.Client.Chat.{received_session, sent_session}
use pqchat.Client.Delivered.{opened}
use pqchat.Client.Handshake.{
  Dh, Offer, SharedSecrets, first_step, ikm_parts, initial_message_of, initiator_dh,
  initiator_session, initiator_transcript, secrets_of, shared,
}
use pqchat.Client.Host.{Host}
use pqchat.Client.KeySchedule.{
  HandshakeKeys, Stepped, decrypt_chain_step, derive_handshake_keys, encrypt_chain_step,
}
use pqchat.Client.OfferLaws.{Proposed}
use pqchat.Client.ScheduleLaws.{
  decrypt_chain_step-encrypt_chain_step, derive_handshake_keys-mirrored, mirrored, mirrored_result,
}
use pqchat.Client.State.{Client, SessionState}
use pqchat.Client.SyncLaws.{InSync, IsX25519}
use pqchat.Crypto.Aead.{nonce_from_counter}
use pqchat.Crypto.AeadLaws.{IsCipher}
use pqchat.Crypto.Keys.{concat_parts, x25519_shared_secret}
use pqchat.Prelude.{Bytes, ap, ap₂, false, refl, subst, subst₂, sym, true, ◌∙◌, ◌≡◌}
use pqchat.Protocol.Messages.{InitialMessage}
use pqchat.Result.{>>=-eq-ok, ok, ok-injective}

pub same_secrets :
    (s : SharedSecrets) (d : Dh) (kem_spk kem_opk : Bytes)
    → d.dh1 ≡ s.dh1
    → d.dh2 ≡ s.dh2
    → d.dh3 ≡ s.dh3
    → d.dh4 ≡ s.dh4
    → kem_spk ≡ s.kem_spk
    → kem_opk ≡ s.kem_opk
    → secrets_of d kem_spk kem_opk ≡ s
unfolding secrets_of
same_secrets s d kem_spk kem_opk e1 e2 e3 e4 e5 e6 = rw (e1, e2, e3, e4, e5, e6) refl

module _ {W : Type 0} (host : Host W) where
  pub record DhSteps (c : Client) (offer : Offer) (d : Dh) : Type 0 where
    pub dh1 :
        x25519_shared_secret host.openssl host.evp c.identity_dh_key.private_key
          offer.bundle.signed_prekey_ec.public_key
        ≡ ok d.dh1
    pub dh2 :
        x25519_shared_secret host.openssl host.evp offer.eph.private_key
          offer.bundle.identity_dh_public_key
        ≡ ok d.dh2
    pub dh3 :
        x25519_shared_secret host.openssl host.evp offer.eph.private_key
          offer.bundle.signed_prekey_ec.public_key
        ≡ ok d.dh3
    pub dh4 :
        x25519_shared_secret host.openssl host.evp offer.eph.private_key offer.ec.public_key
        ≡ ok d.dh4

  pub initiator_dh-DhSteps :
      (c : Client) (offer : Offer) (d : Dh) → initiator_dh host c offer ≡ ok d → DhSteps c offer d
  unfolding initiator_dh
  initiator_dh-DhSteps c offer d e =
      let (dh1, p1, e1) =
        >>=-eq-ok
          (shared host "dh1 failed: " c.identity_dh_key.private_key
            offer.bundle.signed_prekey_ec.public_key)
          _ e in
      let (dh2, p2, e2) =
        >>=-eq-ok
          (shared host "dh2 failed: " offer.eph.private_key offer.bundle.identity_dh_public_key) _
          e1 in
      let (dh3, p3, e3) =
        >>=-eq-ok
          (shared host "dh3 failed: " offer.eph.private_key
            offer.bundle.signed_prekey_ec.public_key)
          _ e2 in
      let (dh4, p4, e4) =
        >>=-eq-ok (shared host "dh4 failed: " offer.eph.private_key offer.ec.public_key) _ e3 in
      subst (DhSteps c offer) (ok-injective e4) (record {
        dh1 = prefixed-ok _ _ p1;
        dh2 = prefixed-ok _ _ p2;
        dh3 = prefixed-ok _ _ p3;
        dh4 = prefixed-ok _ _ p4;
      })

module _ {W : Type 0} {host : Host W} where
  -- The message that a call of InitiateSession has queued.
  abbrev pub first_message :
      {peer_user plaintext : Bytes} {c : Client} {w : W} {s : Client × W}
      → Proposed host peer_user plaintext c w s
      → InitialMessage
  first_message {c} p =
      let i = p.initiated in
      initial_message_of (initiator_transcript c p.offer i.kem_spk.ciphertext i.kem_opk.ciphertext)
        i.transcript_hash i.signature i.signature_mldsa (nonce_from_counter 0) i.stepped.text

  -- Both sides step from the same secrets and transcript.
  module _ (dh : IsX25519 host) (cipher : IsCipher host.evp) (bob : Client) (offer : Offer)
      (message : InitialMessage) (secrets : SharedSecrets) (plaintext : Bytes) (a b : SessionState)
      (sent got : Stepped)
      (stepped : first_step host offer secrets message.transcript_hash plaintext ≡ ok (a, sent))
      (received : first_received host bob message secrets ≡ ok (b, got))
      (nonce : message.initial_nonce ≡ nonce_from_counter 0)
      (ciphertext : message.initial_ciphertext ≡ sent.text)
      (same_id : message.session_id ≡ offer.session_id)
      (same_key : message.initiator_ephemeral_ec_public_key ≡ offer.eph.public_key)
      (bundled : offer.bundle.signed_prekey_ec.public_key ≡ bob.signed_prekey_ec_private.public_key)
      (eph_pair : dh.Pair offer.eph) (ec_pair : dh.Pair bob.signed_prekey_ec_private) where
    from_keys :
        (keys : HandshakeKeys) (st : Stepped)
        → InSync dh
            (sent_session st (initiator_session offer keys))
            (received_session (opened plaintext st) (responder_session bob message (mirrored keys)))
    unfolding initiator_session responder_session sent_session received_session
    from_keys keys st = record {
      same_id = sym same_id;
      root = refl;
      forth = refl;
      back = refl;
      forth_count = refl;
      back_count = refl;
      remote_a = bundled;
      remote_b = same_key;
      pair_a = eph_pair;
      pair_b = ec_pair;
    }

    pub both_stepped : (got.text ≡ plaintext) × InSync dh a b
    unfolding first_step first_received initiator_session responder_session sent_session
        received_session
    both_stepped =
        let (keys, k1, r1) =
          >>=-eq-ok
            (prefix_error "handshake key schedule failed: " (
              derive_handshake_keys host (concat_parts (ikm_parts secrets)) message.transcript_hash
                true))
            _ stepped in
        let (keys', k2, r2) =
          >>=-eq-ok
            (prefix_error "handshake key schedule failed: " (
              derive_handshake_keys host (concat_parts (ikm_parts secrets)) message.transcript_hash
                false))
            _ received in
        let mirror : keys' ≡ mirrored keys = ok-injective (
          sym (prefixed-ok _ _ k2)
          ∙ derive_handshake_keys-mirrored host (concat_parts (ikm_parts secrets))
              message.transcript_hash
          ∙ ap mirrored_result (prefixed-ok _ _ k1)) in
        let (st, s1, l1) =
          >>=-eq-ok
            (prefix_error "encrypt initial payload failed: " (
              encrypt_chain_step host keys.send 0 (nonce_from_counter 0) plaintext
                message.transcript_hash))
            _ r1 in
        let (st', s2, l2) =
          >>=-eq-ok
            (prefix_error "initial payload decrypt failed: " (
              decrypt_chain_step host keys'.recv 0 message.initial_nonce message.initial_ciphertext
                message.transcript_hash))
            _ r2 in
        let back =
          decrypt_chain_step-encrypt_chain_step host keys.send 0 (nonce_from_counter 0) plaintext
            message.transcript_hash st cipher (prefixed-ok _ _ s1) in
        let sent_is : sent ≡ st =
          sym (ap (λ (q : SessionState × Stepped). q.1) (ok-injective l1)) in
        let same_step : decrypt_chain_step host keys.send 0 (nonce_from_counter 0) st.text
              message.transcript_hash
            ≡ decrypt_chain_step host keys'.recv 0 message.initial_nonce message.initial_ciphertext
                message.transcript_hash =
          rw (mirror, nonce, ciphertext, sent_is) refl in
        let opened_is : opened plaintext st ≡ st' =
          ok-injective (sym back ∙ same_step ∙ prefixed-ok _ _ s2) in
        let left = ok-injective l2 in
        (
          sym (ap (λ x. x.text) (opened_is ∙ ap (λ (q : SessionState × Stepped). q.1) left)),
          subst₂ (InSync dh) (ap (λ (q : SessionState × Stepped). q.0) (ok-injective l1))
              (ap₂ (λ x k. received_session x (responder_session bob message k)) opened_is
                  (sym mirror)
                ∙ ap (λ (q : SessionState × Stepped). q.0) left)
              (from_keys keys st),
        )
