-- ===== src/Client/Handshake.antt =====
-- InitiateSession and NewSessionId of src/client/client.cpp. The server is not null.
use pqchat.Client.Act.{
  Act, call, current, found_or, prefix_act, prefix_error, pure, require, returned, update, ◌>>=◌,
  ◌>>◌,
}
use pqchat.Client.Chat.{sent_session, set_session}
use pqchat.Client.Host.{Host}
use pqchat.Client.Identity.{verify_or_remember_peer_identity}
use pqchat.Client.KeySchedule.{HandshakeKeys, Stepped, derive_handshake_keys, encrypt_chain_step}
use pqchat.Client.LocalState.Save.{save}
use pqchat.Client.ReplayGuards.{remember_initial_replay_guards}
use pqchat.Client.State.{Client, Guards, SessionState}
use pqchat.Crypto.{non_null}
use pqchat.Crypto.Aead.{nonce_from_counter}
use pqchat.Crypto.Evp.{KeyPair}
use pqchat.Crypto.Keys.{
  concat_parts, ed25519_sign, mldsa65_sign, mlkem_encapsulate, x25519_generate,
  x25519_shared_secret,
}
use pqchat.Prelude.{Bytes, List, Option, String, [], bytes_eq, none, some, true, ◌∷◌}
use pqchat.Protocol.Messages.{InitialMessage, PrekeySelection, from_initial}
use pqchat.Protocol.PrekeyBundle.{OneTimePrekeyEc, OneTimePrekeyPq, PrekeyBundle}
use pqchat.Protocol.SignInputs.{
  InitialTranscriptFields, cipher_suite, compute_initial_transcript_hash, protocol_version,
  verify_prekey_bundle_signatures,
}
use pqchat.Result.{Result, ok, ◌>>=◌ as and_then}
use pqchat.Server.InMemory.Hex.{to_hex}

-- What both sides agree on: four shared secrets of X25519 and two of ML-KEM.
pub record SharedSecrets : Type 0 where
  pub dh1 : Bytes
  pub dh2 : Bytes
  pub dh3 : Bytes
  pub dh4 : Bytes
  pub kem_spk : Bytes
  pub kem_opk : Bytes

unfoldable pub ikm_parts : SharedSecrets → List Bytes
ikm_parts s = s.dh1 ∷ s.dh2 ∷ s.dh3 ∷ s.kem_spk ∷ s.dh4 ∷ s.kem_opk ∷ []

-- What the initiator has drawn and what the peer offers.
pub record Offer : Type 0 where
  pub session_id : Bytes
  pub peer_user : Bytes
  pub bundle : PrekeyBundle
  pub ec : OneTimePrekeyEc
  pub pq : OneTimePrekeyPq
  pub eph : KeyPair

pub record Dh : Type 0 where
  pub dh1 : Bytes
  pub dh2 : Bytes
  pub dh3 : Bytes
  pub dh4 : Bytes

unfoldable pub secrets_of : Dh → Bytes → Bytes → SharedSecrets
secrets_of dh kem_spk kem_opk = record {
  dh1 = dh.dh1;
  dh2 = dh.dh2;
  dh3 = dh.dh3;
  dh4 = dh.dh4;
  kem_spk = kem_spk;
  kem_opk = kem_opk;
}

unfoldable pub offered_prekeys : Offer → PrekeySelection
offered_prekeys offer = record {
  signed_prekey_ec_id = offer.bundle.signed_prekey_ec.id;
  signed_prekey_pq_id = offer.bundle.signed_prekey_pq.id;
  one_time_ec_id = some offer.ec.id;
  one_time_pq_id = some offer.pq.id;
}

unfoldable pub initiator_transcript : Client → Offer → Bytes → Bytes → InitialTranscriptFields
initiator_transcript client offer signed_pq one_time_pq = record {
  session_id = offer.session_id;
  from_user = client.user_id;
  to_user = offer.peer_user;
  version = protocol_version;
  cipher_suite = cipher_suite;
  initiator_identity_sign_public_key = client.identity_sign_key.public_key;
  initiator_identity_mldsa_public_key = client.identity_mldsa_key.public_key;
  initiator_identity_dh_public_key = client.identity_dh_key.public_key;
  responder_identity_sign_public_key = offer.bundle.identity_sign_public_key;
  responder_identity_mldsa_public_key = offer.bundle.identity_mldsa_public_key;
  responder_identity_dh_public_key = offer.bundle.identity_dh_public_key;
  initiator_ephemeral_ec_public_key = offer.eph.public_key;
  selected_prekeys = offered_prekeys offer;
  kem_ciphertext_signed_pq = signed_pq;
  kem_ciphertext_one_time_pq = some one_time_pq;
}

unfoldable pub initiator_session : Offer → HandshakeKeys → SessionState
initiator_session offer keys = record {
  session_id = offer.session_id;
  peer_user = offer.peer_user;
  is_initiator = true;
  root_key = keys.root;
  send_chain_key = keys.send;
  recv_chain_key = keys.recv;
  send_counter = 0;
  recv_counter = 0;
  previous_send_chain_length = 0;
  local_ratchet_key = offer.eph;
  remote_ratchet_public = offer.bundle.signed_prekey_ec.public_key;
}

-- Signatures, nonce and ciphertext come last.
unfoldable pub initial_message_of :
    InitialTranscriptFields → Bytes → Bytes → Bytes → Bytes → Bytes → InitialMessage
initial_message_of fields transcript_hash signature signature_mldsa nonce ciphertext = record {
  session_id = fields.session_id;
  from_user = fields.from_user;
  to_user = fields.to_user;
  version = fields.version;
  cipher_suite = fields.cipher_suite;
  initiator_identity_sign_public_key = fields.initiator_identity_sign_public_key;
  initiator_identity_mldsa_public_key = fields.initiator_identity_mldsa_public_key;
  initiator_identity_dh_public_key = fields.initiator_identity_dh_public_key;
  initiator_ephemeral_ec_public_key = fields.initiator_ephemeral_ec_public_key;
  selected_prekeys = fields.selected_prekeys;
  kem_ciphertext_signed_pq = fields.kem_ciphertext_signed_pq;
  kem_ciphertext_one_time_pq = fields.kem_ciphertext_one_time_pq;
  transcript_hash = transcript_hash;
  handshake_signature_ed25519 = signature;
  handshake_signature_mldsa65 = signature_mldsa;
  initial_nonce = nonce;
  initial_ciphertext = ciphertext;
}

unfoldable pub set_guards : Guards → Client → Client
set_guards guards client = record client { guards = guards }

-- `bundle.one_time_ec.front()`
abbrev pub first_of : {A : Type 0} → List A → Option A
first_of [] = none
first_of (x ∷ xs) = some x

module _ {W : Type 0} (host : Host W) where
  unfoldable pub new_session_id : W → Result Bytes × W
  new_session_id w =
      let (random, w') = host.evp.rand_bytes 16 w in
      (and_then (non_null random "RAND_bytes failed") λ drawn. ok (to_hex drawn), w')

  unfoldable pub remember_guards : Bytes → Bytes → Act W (Unit {0})
  remember_guards session_id transcript_hash client w =
      let (r, guards) = remember_initial_replay_guards session_id transcript_hash client.guards in
      (r, (set_guards guards client, w))

  abbrev pub shared : String → Bytes → Bytes → Result Bytes
  shared prefix private_key public_key =
      prefix_error prefix (x25519_shared_secret host.openssl host.evp private_key public_key)

  -- The bundle of the peer, checked.
  unfoldable pub check_peer_bundle : Bytes → PrekeyBundle → Act W (Unit {0})
  check_peer_bundle peer_user bundle = do
    require (bytes_eq bundle.user_id peer_user) "peer bundle user mismatch"
    require (bytes_eq bundle.version protocol_version)
        "peer bundle uses unsupported protocol version"
    require (bytes_eq bundle.cipher_suite cipher_suite) "peer bundle uses unsupported cipher suite"
    returned (
        prefix_error "peer bundle verification failed: "
          (verify_prekey_bundle_signatures host.openssl bundle))
    verify_or_remember_peer_identity host peer_user bundle.identity_sign_public_key
        bundle.identity_mldsa_public_key bundle.identity_dh_public_key

  unfoldable pub prepare_offer : Bytes → PrekeyBundle → Act W Offer
  prepare_offer peer_user bundle = do
    check_peer_bundle peer_user bundle
    session_id ← call new_session_id
    ec ← found_or "peer has no one-time prekeys available" (first_of bundle.one_time_ec)
    pq ← found_or "peer has no one-time prekeys available" (first_of bundle.one_time_pq)
    eph ← prefix_act "ephemeral keygen failed: " (call (x25519_generate host.openssl host.evp))
    pure (record {
      session_id = session_id;
      peer_user = peer_user;
      bundle = bundle;
      ec = ec;
      pq = pq;
      eph = eph;
    })

  unfoldable pub initiator_dh : Client → Offer → Result Dh
  initiator_dh client offer =
      let bundle = offer.bundle in
      let eph = offer.eph.private_key in
      and_then
        (shared "dh1 failed: " client.identity_dh_key.private_key
          bundle.signed_prekey_ec.public_key)
        λ dh1. and_then (shared "dh2 failed: " eph bundle.identity_dh_public_key) λ dh2.
          and_then (shared "dh3 failed: " eph bundle.signed_prekey_ec.public_key) λ dh3.
            and_then (shared "dh4 failed: " eph offer.ec.public_key)
              λ dh4. ok (record { dh1 = dh1; dh2 = dh2; dh3 = dh3; dh4 = dh4 })

  -- The signatures on the transcript.
  unfoldable pub sign_handshake : Client → Bytes → Act W (Bytes × Bytes)
  sign_handshake client transcript_hash = do
    signature ← returned (
        prefix_error "handshake ed25519 signature failed: "
          (ed25519_sign host.openssl host.evp client.identity_sign_key.private_key transcript_hash))
    signature_mldsa ← prefix_act "handshake mldsa signature failed: " (
        call (
          mldsa65_sign host.openssl host.evp client.identity_mldsa_key.private_key transcript_hash))
    pure (signature, signature_mldsa)

  -- The key schedule and the first step of the sending chain.
  unfoldable pub first_step :
      Offer → SharedSecrets → Bytes → Bytes → Result (SessionState × Stepped)
  first_step offer secrets transcript_hash plaintext =
      and_then
        (prefix_error "handshake key schedule failed: "
          (derive_handshake_keys host (concat_parts (ikm_parts secrets)) transcript_hash true))
        λ keys.
          let state = initiator_session offer keys in
          and_then
            (prefix_error "encrypt initial payload failed: " (
              encrypt_chain_step host state.send_chain_key state.send_counter
                (nonce_from_counter state.send_counter) plaintext transcript_hash))
            λ stepped. ok (sent_session stepped state, stepped)

  -- What follows once the first message is encrypted.
  unfoldable pub open_and_send : Bytes → SessionState → InitialMessage → Act W (Unit {0})
  open_and_send peer_user state message = do
    remember_guards state.session_id message.transcript_hash
    update (set_session peer_user state)
    call (host.server.enqueue_envelope peer_user (from_initial message))
    prefix_act "persist local state failed: " (save host)

  unfoldable pub complete_handshake : Offer → Bytes → Dh → Act W (Unit {0})
  complete_handshake offer initial_plaintext dh = do
    client ← current
    kem_spk ←
        prefix_act "KEM encaps to signed prekey failed: "
          (call (mlkem_encapsulate host.openssl host.evp offer.bundle.signed_prekey_pq.public_key))
    kem_opk ←
        prefix_act "KEM encaps to one-time prekey failed: "
          (call (mlkem_encapsulate host.openssl host.evp offer.pq.public_key))
    transcript_hash ← returned (
        prefix_error "transcript hash failed: " (
          compute_initial_transcript_hash host.openssl
            (initiator_transcript client offer kem_spk.ciphertext kem_opk.ciphertext)))
    signatures ← sign_handshake client transcript_hash
    first ← returned (
        first_step offer (secrets_of dh kem_spk.shared_secret kem_opk.shared_secret) transcript_hash
          initial_plaintext)
    open_and_send offer.peer_user first.0 (
        initial_message_of (initiator_transcript client offer kem_spk.ciphertext kem_opk.ciphertext)
          transcript_hash signatures.0 signatures.1 (nonce_from_counter 0) first.1.text)

  unfoldable pub initiate_session : Bytes → Bytes → Act W (Unit {0})
  initiate_session peer_user initial_plaintext = do
    bundle ←
        prefix_act "failed to fetch peer bundle: "
          (call (host.server.acquire_bundle_for_session peer_user))
    offer ← prepare_offer peer_user bundle
    client ← current
    dh ← returned (initiator_dh client offer)
    complete_handshake offer initial_plaintext dh
