-- ===== src/Client/OfferLaws.antt =====
-- What InitiateSession of src/client/client.cpp has done when it returns.
use pqchat.Client.Act.{
  >>=-Passed, call-passed, current-passed, found-passed, kept-passed, prefixed-ok,
  prefixed_call-passed, pure-passed, require-passed, returned-passed, unchanged-passed,
  update-passed,
}
use pqchat.Client.Chat.{set_session}
use pqchat.Client.Handshake.{
  Dh, Offer, check_peer_bundle, complete_handshake, first_of, first_step, initial_message_of,
  initiate_session, initiator_dh, initiator_transcript, open_and_send, prepare_offer,
  remember_guards, secrets_of, sign_handshake,
}
use pqchat.Client.Host.{Host}
use pqchat.Client.IdentityLaws.{Trusted, verify_or_remember_peer_identity-Trusted}
use pqchat.Client.KeySchedule.{Stepped}
use pqchat.Client.SendLaws.{saved-passed}
use pqchat.Client.State.{Client, SessionState}
use pqchat.Crypto.Aead.{nonce_from_counter}
use pqchat.Crypto.Evp.{EncapResult}
use pqchat.Crypto.Keys.{mlkem_encapsulate, x25519_generate}
use pqchat.Prelude.{Bytes, ap, bytes_eq, insert_self, refl, some, subst₂, sym, true, ◌≡◌}
use pqchat.Protocol.Messages.{InitialMessage, from_initial}
use pqchat.Protocol.PrekeyBundle.{PrekeyBundle}
use pqchat.Protocol.SignInputs.{verify_prekey_bundle_signatures}
use pqchat.Result.{ok}

module _ {W : Type 0} (host : Host W) where
  -- A bundle that passes is the peer's, its signatures hold, and the peer's identity was verified.
  pub record Vetted (peer_user : Bytes) (bundle : PrekeyBundle) (c : Client) : Type 0 where
    pub of_peer : bytes_eq bundle.user_id peer_user ≡ true
    pub signed : verify_prekey_bundle_signatures host.openssl bundle ≡ ok tt
    pub trusted :
        Trusted host peer_user bundle.identity_sign_public_key bundle.identity_mldsa_public_key
          bundle.identity_dh_public_key c

  check_peer_bundle-Vetted :
      (peer_user : Bytes) (bundle : PrekeyBundle) (c : Client) (w : W) (s : Client × W)
      → check_peer_bundle host peer_user bundle c w ≡ (ok tt, s)
      → Vetted peer_user bundle c × (s ≡ (c, w))
  unfolding check_peer_bundle
  check_peer_bundle-Vetted peer_user bundle c w s e =
      let (of_peer, e1) = require-passed _ _ _ e in
      let (version, e2) = require-passed _ _ _ e1 in
      let (suite, e3) = require-passed _ _ _ e2 in
      let (_, signed, e4) = returned-passed _ _ e3 in
      let (trusted, left) =
        verify_or_remember_peer_identity-Trusted host peer_user bundle.identity_sign_public_key
          bundle.identity_mldsa_public_key bundle.identity_dh_public_key c w s e4 in
      (record { of_peer = of_peer; signed = prefixed-ok _ _ signed; trusted = trusted }, left)

  pub record Prepared (peer_user : Bytes) (bundle : PrekeyBundle) (c : Client) (offer : Offer)
      (after : W) : Type 0 where
    pub vetted : Vetted peer_user bundle c
    pub from : W
    pub drawn : x25519_generate host.openssl host.evp from ≡ (ok offer.eph, after)
    pub to_peer : offer.peer_user ≡ peer_user
    pub of_bundle : offer.bundle ≡ bundle
    pub first_ec : first_of bundle.one_time_ec ≡ some offer.ec
    pub first_pq : first_of bundle.one_time_pq ≡ some offer.pq

  prepare_offer-Prepared :
      (peer_user : Bytes) (bundle : PrekeyBundle) (c : Client) (w : W) (offer : Offer)
      (s : Client × W)
      → prepare_offer host peer_user bundle c w ≡ (ok offer, s)
      → Prepared peer_user bundle c offer s.1 × (s.0 ≡ c)
  unfolding prepare_offer
  prepare_offer-Prepared peer_user bundle c w offer s e =
      let (_, vetted, e1) =
        unchanged-passed (λ _. Vetted peer_user bundle c) (check_peer_bundle host peer_user bundle)
          _ (λ _. check_peer_bundle-Vetted peer_user bundle c w) e in
      let (session_id, w1, _, e2) = call-passed _ _ e1 in
      let (ec, first_ec, e3) = found-passed _ _ _ e2 in
      let (pq, first_pq, e4) = found-passed _ _ _ e3 in
      let (eph, after, drawn, e5) = prefixed_call-passed _ _ _ e4 in
      let (same, left) = pure-passed _ e5 in
      (
        subst₂ (Prepared peer_user bundle c) (sym same) (sym (ap (λ (t : Client × W). t.1) left))
            (record {
              vetted = vetted;
              from = w1;
              drawn = drawn;
              to_peer = refl;
              of_bundle = refl;
              first_ec = first_ec;
              first_pq = first_pq;
            }),
        ap (λ (t : Client × W). t.0) left,
      )

  -- The first message and the session of the initiator, from what was agreed.
  pub record Initiated (c : Client) (offer : Offer) (dh : Dh) (plaintext : Bytes) (s : Client × W)
      : Type 0 where
    pub spk_from : W
    pub opk_from : W
    pub opk_after : W
    pub kem_spk : EncapResult
    pub kem_opk : EncapResult
    pub spk_drawn :
        mlkem_encapsulate host.openssl host.evp offer.bundle.signed_prekey_pq.public_key spk_from
        ≡ (ok kem_spk, opk_from)
    pub opk_drawn :
        mlkem_encapsulate host.openssl host.evp offer.pq.public_key opk_from
        ≡ (ok kem_opk, opk_after)
    pub transcript_hash : Bytes
    pub signature : Bytes
    pub signature_mldsa : Bytes
    pub session : SessionState
    pub stepped : Stepped
    pub stepped_to :
        first_step host offer
          (secrets_of dh kem_spk.shared_secret kem_opk.shared_secret)
          transcript_hash
          plaintext
        ≡ ok (session, stepped)
    pub sent_from : W
    pub queued : W
    pub enqueued :
        host.server.enqueue_envelope offer.peer_user
          (from_initial (
            initial_message_of
              (initiator_transcript c offer kem_spk.ciphertext kem_opk.ciphertext)
              transcript_hash
              signature
              signature_mldsa
              (nonce_from_counter 0)
              stepped.text))
          sent_from
        ≡ (ok tt, queued)
    pub stored : s.0.sessions_by_peer offer.peer_user ≡ some session

  sign_handshake-kept :
      (c : Client) (transcript_hash : Bytes) (d : Client) (w : W) (signatures : Bytes × Bytes)
      (t : Client × W)
      → sign_handshake host c transcript_hash d w ≡ (ok signatures, t)
      → Unit {0} × (t.0 ≡ d)
  unfolding sign_handshake
  sign_handshake-kept c transcript_hash d w signatures t e =
      let (signature, _, e1) = returned-passed _ _ e in
      let (signature_mldsa, after, _, e2) = prefixed_call-passed _ _ _ e1 in
      (tt, ap (λ (t : Client × W). t.0) ((pure-passed _ e2).1))

  -- What is queued, and the session that is stored.
  record Queued (peer_user : Bytes) (session : SessionState) (message : InitialMessage)
      (s : Client × W) : Type 0 where
    sent_from : W
    queued : W
    enqueued :
        host.server.enqueue_envelope peer_user (from_initial message) sent_from ≡ (ok tt, queued)
    stored : s.0.sessions_by_peer peer_user ≡ some session

  open_and_send-Queued :
      (peer_user : Bytes) (session : SessionState) (message : InitialMessage) (c : Client) (w : W)
      (s : Client × W)
      → open_and_send host peer_user session message c w ≡ (ok tt, s)
      → Queued peer_user session message s
  unfolding open_and_send set_session
  open_and_send-Queued peer_user session message c w s e =
      let p =
        >>=-Passed (remember_guards host session.session_id message.transcript_hash) _ c w e in
      let (_, queued, enqueued, e1) = call-passed _ _ (update-passed _ _ p.second) in
      record {
        sent_from = p.between.1;
        queued = queued;
        enqueued = enqueued;
        stored =
            rw (saved-passed host "persist local state failed: " _ queued s e1)
              (insert_self peer_user session _);
      }

  complete_handshake-Initiated :
      (c : Client) (offer : Offer) (dh : Dh) (plaintext : Bytes) (w : W) (s : Client × W)
      → complete_handshake host offer plaintext dh c w ≡ (ok tt, s)
      → Initiated c offer dh plaintext s
  unfolding complete_handshake
  complete_handshake-Initiated c offer dh plaintext w s e =
      let (kem_spk, opk_from, spk_drawn, e1) = prefixed_call-passed _ _ _ (current-passed _ e) in
      let (kem_opk, opk_after, opk_drawn, e2) = prefixed_call-passed _ _ _ e1 in
      let (transcript_hash, _, e3) = returned-passed _ _ e2 in
      let (signatures, w3, _, e4) =
        kept-passed (λ _ _. Unit) (sign_handshake host c transcript_hash) _
          (sign_handshake-kept c transcript_hash c opk_after) e3 in
      let (first, stepped_to, e5) = returned-passed _ _ e4 in
      let sent = open_and_send-Queued offer.peer_user first.0 _ c w3 s e5 in
      record {
        spk_from = w;
        opk_from = opk_from;
        opk_after = opk_after;
        kem_spk = kem_spk;
        kem_opk = kem_opk;
        spk_drawn = spk_drawn;
        opk_drawn = opk_drawn;
        transcript_hash = transcript_hash;
        signature = signatures.0;
        signature_mldsa = signatures.1;
        session = first.0;
        stepped = first.1;
        stepped_to = stepped_to;
        sent_from = sent.sent_from;
        queued = sent.queued;
        enqueued = sent.enqueued;
        stored = sent.stored;
      }

  -- The whole call: the bundle was the peer's and was vetted, its first one-time prekeys are used, the
  -- message is queued and the session stored.
  pub record Proposed (peer_user plaintext : Bytes) (c : Client) (w : W) (s : Client × W)
      : Type 0 where
    pub bundle : PrekeyBundle
    pub fetched_at : W
    pub fetched : host.server.acquire_bundle_for_session peer_user w ≡ (ok bundle, fetched_at)
    pub offer : Offer
    pub dh : Dh
    pub after : W
    pub prepared : Prepared peer_user bundle c offer after
    pub derived : initiator_dh host c offer ≡ ok dh
    pub initiated : Initiated c offer dh plaintext s

  pub initiate_session-Proposed :
      (peer_user plaintext : Bytes) (c : Client) (w : W) (s : Client × W)
      → initiate_session host peer_user plaintext c w ≡ (ok tt, s)
      → Proposed peer_user plaintext c w s
  unfolding initiate_session
  initiate_session-Proposed peer_user plaintext c w s e =
      let (bundle, w1, fetched, e1) = prefixed_call-passed _ _ _ e in
      let (offer, after, prepared, e2) =
        kept-passed (Prepared peer_user bundle c) (prepare_offer host peer_user bundle) _
          (prepare_offer-Prepared peer_user bundle c w1) e1 in
      let (dh, derived, e3) = returned-passed _ _ (current-passed _ e2) in
      record {
        bundle = bundle;
        fetched_at = w1;
        fetched = fetched;
        offer = offer;
        dh = dh;
        after = after;
        prepared = prepared;
        derived = derived;
        initiated = complete_handshake-Initiated c offer dh plaintext after s e3;
      }
