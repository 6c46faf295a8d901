-- ===== src/Client/HandshakeAgreed.antt =====
-- InitiateSession and HandleInitialMessage of src/client/client.cpp: what both sides have afterwards.
use pqchat.Client.Accept.{Selected, handle_initial_message, selected_in}
use pqchat.Client.AcceptLaws.{Agreed}
use pqchat.Client.Chat.{set_session}
use pqchat.Client.Handshake.{
  SharedSecrets, initial_message_of, initiator_transcript, offered_prekeys, secrets_of,
}
use pqchat.Client.HandshakeDone.{both_stepped, first_message, initiator_dh-DhSteps, same_secrets}
use pqchat.Client.HandshakeSync.{IsKem, Owned, same_kem, same_secret}
use pqchat.Client.Host.{Host}
use pqchat.Client.OfferLaws.{Proposed}
use pqchat.Client.OpenLaws.{handle_initial_message-Opened}
use pqchat.Client.State.{Client, SessionState}
use pqchat.Client.SyncLaws.{InSync, IsX25519}
use pqchat.Crypto.AeadLaws.{IsCipher}
use pqchat.Prelude.{Bytes, ap, insert_self, refl, some, some-injective, ◌∙◌, ◌≡◌}
use pqchat.Result.{ok}

module _ {W : Type 0} {host : Host W} (dh : IsX25519 host) (kem : IsKem host)
    (cipher : IsCipher host.evp) {plaintext : Bytes} (alice bob : Client) {w : W} {s : Client × W}
    (p : Proposed host bob.user_id plaintext alice w s) (identity : dh.Pair alice.identity_dh_key)
    (owned : Owned dh kem bob p.bundle) where
  eph_pair : dh.Pair p.offer.eph
  eph_pair = dh.generated p.prepared.from p.offer.eph p.after p.prepared.drawn

  -- The secrets of the responder are the initiator's.
  module _ (secrets : SharedSecrets) (selected : Selected)
      (selects : selected_in (first_message p) ≡ some selected)
      (agreed : Agreed host (first_message p) bob selected secrets) where
    chosen :
        record {
          one_time_ec_id = p.offer.ec.id;
          one_time_pq_id = p.offer.pq.id;
          ciphertext = p.initiated.kem_opk.ciphertext;
        }
        ≡ selected
    unfolding selected_in initial_message_of initiator_transcript offered_prekeys
    chosen = some-injective selects

    secrets_agreed :
        secrets_of p.dh p.initiated.kem_spk.shared_secret p.initiated.kem_opk.shared_secret
        ≡ secrets
    unfolding initial_message_of initiator_transcript
    secrets_agreed =
        let steps = initiator_dh-DhSteps host alice p.offer p.dh p.derived in
        let bundle = p.prepared.of_bundle in
        let ec =
          owned.one_time_ec p.offer.ec agreed.ec p.prepared.first_ec
            (rw (ap (λ (x : Selected). x.one_time_ec_id) chosen) agreed.has_ec) in
        let pq =
          owned.one_time_pq p.offer.pq agreed.pq p.prepared.first_pq
            (rw (ap (λ (x : Selected). x.one_time_pq_id) chosen) agreed.has_pq) in
        same_secrets secrets p.dh p.initiated.kem_spk.shared_secret
          p.initiated.kem_opk.shared_secret
          (same_secret dh kem alice.identity_dh_key bob.signed_prekey_ec_private _ _ _ identity
            owned.ec_pair (rw bundle owned.ec) steps.dh1 agreed.dh1)
          (same_secret dh kem p.offer.eph bob.identity_dh_key _ _ _ eph_pair owned.identity_pair
            (rw bundle owned.identity) steps.dh2 agreed.dh2)
          (same_secret dh kem p.offer.eph bob.signed_prekey_ec_private _ _ _ eph_pair owned.ec_pair
            (rw bundle owned.ec) steps.dh3 agreed.dh3)
          (same_secret dh kem p.offer.eph agreed.ec.private_part _ _ _ eph_pair ec.1 ec.0 steps.dh4
            agreed.dh4)
          (same_kem dh kem bob.signed_prekey_pq_private _ _ _ _ p.initiated.kem_spk owned.pq_pair
            (rw bundle owned.pq) p.initiated.spk_drawn agreed.kem_spk)
          (same_kem dh kem agreed.pq.private_part _ _ _ _ p.initiated.kem_opk pq.1 pq.0
            p.initiated.opk_drawn (rw (ap (λ (x : Selected). x.ciphertext) chosen) agreed.kem_opk))

  -- When the peer accepts the first message that a successful call of InitiateSession has queued, it reads
  -- what the initiator wrote, and both hold sessions that belong together: one root key, and what one
  -- sends with, the other receives with. (`Proposed` is what initiate_session-Proposed gets from the call.
  -- The bundle that the server handed out holds the peer's own keys.)
  pub handshake-InSync :
      (later : W) (text : Bytes) (t : Client × W)
      → handle_initial_message host (first_message p) bob later ≡ (ok text, t)
      → (text ≡ plaintext)
        × (a : SessionState) × (b : SessionState) × (s.0.sessions_by_peer bob.user_id ≡ some a)
        × (t.0.sessions_by_peer alice.user_id ≡ some b)
        × InSync dh a b
  unfolding initial_message_of initiator_transcript set_session
  handshake-InSync later text t e =
      let o = handle_initial_message-Opened host (first_message p) bob later text t e in
      let same = secrets_agreed o.secrets o.selected o.checks.selects o.agreed in
      let (reads, sync) =
        both_stepped dh cipher bob p.offer (first_message p) o.secrets plaintext p.initiated.session
          o.session p.initiated.stepped o.stepped (rw (← same) p.initiated.stepped_to) o.received
          refl refl refl refl (rw p.prepared.of_bundle owned.ec) eph_pair owned.ec_pair in
      (
        o.text_of ∙ reads,
        p.initiated.session,
        o.session,
        rw (← p.prepared.to_peer) p.initiated.stored,
        rw o.left (insert_self alice.user_id o.session _),
        sync,
      )
