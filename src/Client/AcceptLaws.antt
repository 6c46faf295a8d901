-- ===== src/Client/AcceptLaws.antt =====
-- What HandleInitialMessage of src/client/client.cpp accepts.
use pqchat.Client.Accept.{
  Selected, authenticate_initial, check_initial, find_ec, find_pq, responder_secrets,
  responder_transcript, selected_in,
}
use pqchat.Client.Act.{
  current-passed, found-passed, prefixed-ok, pure-passed, require-passed, returned-passed,
}
use pqchat.Client.Handshake.{SharedSecrets}
use pqchat.Client.Host.{Host}
use pqchat.Client.IdentityLaws.{Trusted, verify_or_remember_peer_identity-Trusted}
use pqchat.Client.ReplayGuards.{has_seen_initial_replay_guard}
use pqchat.Client.State.{Client, OneTimeEc, OneTimePq}
use pqchat.Crypto.{ed25519_verify-accepted, mldsa65_verify-accepted}
use pqchat.Crypto.Keys.{mlkem_decapsulate, x25519_shared_secret}
use pqchat.Prelude.{ap, bytes_eq, bytes_eq_sound, not, some, true, ◌&&◌, ◌==◌, ◌∙◌, ◌≡◌}
use pqchat.Protocol.Messages.{InitialMessage}
use pqchat.Protocol.SignInputs.{cipher_suite, compute_initial_transcript_hash, protocol_version}
use pqchat.Result.{ok}

module _ {W : Type 0} (host : Host W) where
  pub record Checked (message : InitialMessage) (c : Client) (selected : Selected) : Type 0 where
    pub recipient : bytes_eq message.to_user c.user_id ≡ true
    pub version : bytes_eq message.version protocol_version ≡ true
    pub suite : bytes_eq message.cipher_suite cipher_suite ≡ true
    pub selects : selected_in message ≡ some selected
    pub unseen :
        not (has_seen_initial_replay_guard message.session_id message.transcript_hash c.guards)
        ≡ true
    pub signed_prekeys :
        ((message.selected_prekeys.signed_prekey_ec_id == c.signed_prekey_ec_public.id)
          && (message.selected_prekeys.signed_prekey_pq_id == c.signed_prekey_pq_public.id))
        ≡ true

  pub check_initial-Checked :
      (message : InitialMessage) (c : Client) (w : W) (selected : Selected) (s : Client × W)
      → check_initial host message c w ≡ (ok selected, s)
      → Checked message c selected × (s ≡ (c, w))
  unfolding check_initial
  check_initial-Checked message c w selected s e =
      let (recipient, e1) = require-passed _ _ _ (current-passed _ e) in
      let (version, e2) = require-passed _ _ _ e1 in
      let (suite, e3) = require-passed _ _ _ e2 in
      let (chosen, selects, e4) = found-passed _ _ _ e3 in
      let (unseen, e5) = require-passed _ _ _ e4 in
      let (signed_prekeys, e6) = require-passed _ _ _ e5 in
      let (same, left) = pure-passed chosen e6 in
      (
        record {
          recipient = recipient;
          version = version;
          suite = suite;
          selects = rw same selects;
          unseen = unseen;
          signed_prekeys = signed_prekeys;
        },
        left,
      )

  pub record Authenticated (message : InitialMessage) (c : Client) : Type 0 where
    pub transcript :
        compute_initial_transcript_hash host.openssl (responder_transcript c message)
        ≡ ok message.transcript_hash
    pub ed25519 :
        host.openssl.ed25519_verify message.initiator_identity_sign_public_key
          message.transcript_hash message.handshake_signature_ed25519
        ≡ true
    pub mldsa :
        host.openssl.mldsa_verify message.initiator_identity_mldsa_public_key
          message.transcript_hash message.handshake_signature_mldsa65
        ≡ true
    pub trusted :
        Trusted host message.from_user message.initiator_identity_sign_public_key
          message.initiator_identity_mldsa_public_key message.initiator_identity_dh_public_key c

  pub authenticate_initial-Authenticated :
      (message : InitialMessage) (c : Client) (w : W) (s : Client × W)
      → authenticate_initial host message c w ≡ (ok tt, s)
      → Authenticated message c × (s ≡ (c, w))
  unfolding authenticate_initial
  authenticate_initial-Authenticated message c w s e =
      let (hash, hashed, e1) = returned-passed _ _ (current-passed _ e) in
      let (same, e2) = require-passed _ _ _ e1 in
      let (_, signed, e3) = returned-passed _ _ e2 in
      let (_, signed_mldsa, e4) = returned-passed _ _ e3 in
      let (trusted, left) =
        verify_or_remember_peer_identity-Trusted host message.from_user
          message.initiator_identity_sign_public_key message.initiator_identity_mldsa_public_key
          message.initiator_identity_dh_public_key c w s e4 in
      let is : hash ≡ message.transcript_hash = bytes_eq_sound hash message.transcript_hash same in
      (
        record {
          transcript = prefixed-ok _ _ hashed ∙ ap ok is;
          ed25519 = ed25519_verify-accepted host.openssl _ _ _ (prefixed-ok _ _ signed);
          mldsa = mldsa65_verify-accepted host.openssl _ _ _ (prefixed-ok _ _ signed_mldsa);
          trusted = trusted;
        },
        left,
      )

  -- The secrets of the responder, each from the keys that it holds.
  pub record Agreed (message : InitialMessage) (c : Client) (selected : Selected)
      (secrets : SharedSecrets) : Type 0 where
    pub ec : OneTimeEc
    pub pq : OneTimePq
    pub has_ec : find_ec selected.one_time_ec_id c.one_time_ec_pool ≡ some ec
    pub has_pq : find_pq selected.one_time_pq_id c.one_time_pq_pool ≡ some pq
    pub dh1 :
        x25519_shared_secret host.openssl host.evp c.signed_prekey_ec_private.private_key
          message.initiator_identity_dh_public_key
        ≡ ok secrets.dh1
    pub dh2 :
        x25519_shared_secret host.openssl host.evp c.identity_dh_key.private_key
          message.initiator_ephemeral_ec_public_key
        ≡ ok secrets.dh2
    pub dh3 :
        x25519_shared_secret host.openssl host.evp c.signed_prekey_ec_private.private_key
          message.initiator_ephemeral_ec_public_key
        ≡ ok secrets.dh3
    pub dh4 :
        x25519_shared_secret host.openssl host.evp ec.private_part.private_key
          message.initiator_ephemeral_ec_public_key
        ≡ ok secrets.dh4
    pub kem_spk :
        mlkem_decapsulate host.openssl host.evp c.signed_prekey_pq_private.private_key
          message.kem_ciphertext_signed_pq
        ≡ ok secrets.kem_spk
    pub kem_opk :
        mlkem_decapsulate host.openssl host.evp pq.private_part.private_key selected.ciphertext
        ≡ ok secrets.kem_opk

  pub responder_secrets-Agreed :
      (message : InitialMessage) (c : Client) (w : W) (selected : Selected)
      (secrets : SharedSecrets) (s : Client × W)
      → responder_secrets host c message selected c w ≡ (ok secrets, s)
      → Agreed message c selected secrets × (s ≡ (c, w))
  unfolding responder_secrets
  responder_secrets-Agreed message c w selected secrets s e =
      let (dh1, p1, e1) = returned-passed _ _ e in
      let (dh2, p2, e2) = returned-passed _ _ e1 in
      let (dh3, p3, e3) = returned-passed _ _ e2 in
      let (ec, has_ec, e4) = found-passed _ _ _ e3 in
      let (dh4, p4, e5) = returned-passed _ _ e4 in
      let (kem_spk, p5, e6) = returned-passed _ _ e5 in
      let (pq, has_pq, e7) = found-passed _ _ _ e6 in
      let (kem_opk, p6, e8) = returned-passed _ _ e7 in
      let (same, left) = pure-passed _ e8 in
      (
        rw same (record {
          ec = ec;
          pq = pq;
          has_ec = has_ec;
          has_pq = has_pq;
          dh1 = prefixed-ok _ _ p1;
          dh2 = prefixed-ok _ _ p2;
          dh3 = prefixed-ok _ _ p3;
          dh4 = prefixed-ok _ _ p4;
          kem_spk = prefixed-ok _ _ p5;
          kem_opk = prefixed-ok _ _ p6;
        }),
        left,
      )
