-- ===== src/Client/Accept.antt =====
-- HandleInitialMessage of src/client/client.cpp: the responder's side of the handshake.
use pqchat.Client.Act.{
  Act, current, found_or, prefix_error, pure, require, returned, update, ◌>>=◌, ◌>>◌,
}
use pqchat.Client.Chat.{received_session, set_session}
use pqchat.Client.Handshake.{SharedSecrets, ikm_parts, remember_guards, shared}
use pqchat.Client.Host.{Host}
use pqchat.Client.Identity.{verify_or_remember_peer_identity}
use pqchat.Client.KeySchedule.{HandshakeKeys, Stepped, decrypt_chain_step, derive_handshake_keys}
use pqchat.Client.ReplayGuards.{has_seen_initial_replay_guard}
use pqchat.Client.State.{Client, OneTimeEc, OneTimePq, SessionState}
use pqchat.Crypto.{ed25519_verify, mldsa65_verify}
use pqchat.Crypto.Keys.{concat_parts, mlkem_decapsulate}
use pqchat.Prelude.{
  Bytes, List, Option, String, [], bytes_eq, false, if◌then◌else◌, none, not, some, true, ℕ, ◌&&◌,
  ◌==◌, ◌∷◌,
}
use pqchat.Protocol.Messages.{InitialMessage}
use pqchat.Protocol.SignInputs.{
  InitialTranscriptFields, cipher_suite, compute_initial_transcript_hash, protocol_version,
}
use pqchat.Result.{Result, ok, ◌>>=◌ as and_then}

-- The one-time prekeys and the ciphertext that the message must name.
pub record Selected : Type 0 where
  pub one_time_ec_id : ℕ
  pub one_time_pq_id : ℕ
  pub ciphertext : Bytes

unfoldable pub selected_in : InitialMessage → Option Selected
selected_in message =
    go message.selected_prekeys.one_time_ec_id message.selected_prekeys.one_time_pq_id
      message.kem_ciphertext_one_time_pq
  where
    go : Option ℕ → Option ℕ → Option Bytes → Option Selected
    go (some ec) (some pq) (some ciphertext) =
        some (record { one_time_ec_id = ec; one_time_pq_id = pq; ciphertext = ciphertext })
    go _ _ _ = none

-- `std::find_if` by the id, and what is left after `erase` of the place found.
unfoldable pub find_ec : ℕ → List OneTimeEc → Option OneTimeEc
find_ec key_id [] = none
find_ec key_id (key ∷ keys) = if key.public_part.id == key_id then some key else find_ec key_id keys

unfoldable pub find_pq : ℕ → List OneTimePq → Option OneTimePq
find_pq key_id [] = none
find_pq key_id (key ∷ keys) = if key.public_part.id == key_id then some key else find_pq key_id keys

unfoldable pub erase_ec : ℕ → List OneTimeEc → List OneTimeEc
erase_ec key_id [] = []
erase_ec key_id (key ∷ keys) =
    let rest = erase_ec key_id keys in if key.public_part.id == key_id then keys else key ∷ rest

unfoldable pub erase_pq : ℕ → List OneTimePq → List OneTimePq
erase_pq key_id [] = []
erase_pq key_id (key ∷ keys) =
    let rest = erase_pq key_id keys in if key.public_part.id == key_id then keys else key ∷ rest

unfoldable pub responder_transcript : Client → InitialMessage → InitialTranscriptFields
responder_transcript client message = record {
  session_id = message.session_id;
  from_user = message.from_user;
  to_user = message.to_user;
  version = message.version;
  cipher_suite = message.cipher_suite;
  initiator_identity_sign_public_key = message.initiator_identity_sign_public_key;
  initiator_identity_mldsa_public_key = message.initiator_identity_mldsa_public_key;
  initiator_identity_dh_public_key = message.initiator_identity_dh_public_key;
  responder_identity_sign_public_key = client.identity_sign_key.public_key;
  responder_identity_mldsa_public_key = client.identity_mldsa_key.public_key;
  responder_identity_dh_public_key = client.identity_dh_key.public_key;
  initiator_ephemeral_ec_public_key = message.initiator_ephemeral_ec_public_key;
  selected_prekeys = message.selected_prekeys;
  kem_ciphertext_signed_pq = message.kem_ciphertext_signed_pq;
  kem_ciphertext_one_time_pq = message.kem_ciphertext_one_time_pq;
}

unfoldable pub responder_session : Client → InitialMessage → HandshakeKeys → SessionState
responder_session client message keys = record {
  session_id = message.session_id;
  peer_user = message.from_user;
  is_initiator = false;
  root_key = keys.root;
  send_chain_key = keys.send;
  recv_chain_key = keys.recv;
  send_counter = 0;
  recv_counter = 0;
  previous_send_chain_length = 0;
  local_ratchet_key = client.signed_prekey_ec_private;
  remote_ratchet_public = message.initiator_ephemeral_ec_public_key;
}

-- Both one-time prekeys are used up.
unfoldable pub use_prekeys : Selected → Client → Client
use_prekeys selected client = record client {
  one_time_ec_pool = erase_ec selected.one_time_ec_id client.one_time_ec_pool;
  one_time_pq_pool = erase_pq selected.one_time_pq_id client.one_time_pq_pool;
  prekeys_dirty = true;
}

module _ {W : Type 0} (host : Host W) where
  -- The checks before the signatures, and what the message selects.
  unfoldable pub check_initial : InitialMessage → Act W Selected
  check_initial message = do
    client ← current
    require (bytes_eq message.to_user client.user_id) "initial message recipient mismatch"
    require (bytes_eq message.version protocol_version)
        "initial message uses unsupported protocol version"
    require (bytes_eq message.cipher_suite cipher_suite)
        "initial message uses unsupported cipher suite"
    selected ←
        found_or "initial message must include one-time EC and PQ prekeys" (selected_in message)
    require
        (not
          (has_seen_initial_replay_guard message.session_id message.transcript_hash client.guards))
        "duplicate initial handshake rejected"
    require
        ((message.selected_prekeys.signed_prekey_ec_id == client.signed_prekey_ec_public.id)
          && (message.selected_prekeys.signed_prekey_pq_id == client.signed_prekey_pq_public.id))
        "initial message selected unknown signed prekey id"
    pure selected

  -- The transcript, both signatures on it, and the identity of the peer.
  unfoldable pub authenticate_initial : InitialMessage → Act W (Unit {0})
  authenticate_initial message = do
    client ← current
    transcript_hash ← returned (
        prefix_error "transcript hash failed: "
          (compute_initial_transcript_hash host.openssl (responder_transcript client message)))
    require (bytes_eq transcript_hash message.transcript_hash) "transcript hash mismatch"
    returned (
        prefix_error "handshake ed25519 signature invalid: " (
          ed25519_verify host.openssl message.initiator_identity_sign_public_key
            message.transcript_hash message.handshake_signature_ed25519))
    returned (
        prefix_error "handshake mldsa signature invalid: " (
          mldsa65_verify host.openssl message.initiator_identity_mldsa_public_key
            message.transcript_hash message.handshake_signature_mldsa65))
    verify_or_remember_peer_identity host message.from_user
        message.initiator_identity_sign_public_key message.initiator_identity_mldsa_public_key
        message.initiator_identity_dh_public_key

  abbrev decapsulated : String → Bytes → Bytes → Result Bytes
  decapsulated prefix private_key ciphertext =
      prefix_error prefix (mlkem_decapsulate host.openssl host.evp private_key ciphertext)

  unfoldable pub responder_secrets : Client → InitialMessage → Selected → Act W SharedSecrets
  responder_secrets client message selected = do
    dh1 ← returned (
        shared host "dh1 failed: " client.signed_prekey_ec_private.private_key
          message.initiator_identity_dh_public_key)
    dh2 ← returned (
        shared host "dh2 failed: " client.identity_dh_key.private_key
          message.initiator_ephemeral_ec_public_key)
    dh3 ← returned (
        shared host "dh3 failed: " client.signed_prekey_ec_private.private_key
          message.initiator_ephemeral_ec_public_key)
    ec ←
        found_or "one-time EC key id unavailable"
          (find_ec selected.one_time_ec_id client.one_time_ec_pool)
    dh4 ← returned (
        shared host "dh4 failed: " ec.private_part.private_key
          message.initiator_ephemeral_ec_public_key)
    kem_spk ← returned (
        decapsulated "decapsulate signed PQ prekey failed: "
          client.signed_prekey_pq_private.private_key message.kem_ciphertext_signed_pq)
    pq ←
        found_or "one-time PQ key id unavailable"
          (find_pq selected.one_time_pq_id client.one_time_pq_pool)
    kem_opk ← returned (
        decapsulated "decapsulate one-time PQ prekey failed: " pq.private_part.private_key
          selected.ciphertext)
    pure (record {
      dh1 = dh1;
      dh2 = dh2;
      dh3 = dh3;
      dh4 = dh4;
      kem_spk = kem_spk;
      kem_opk = kem_opk;
    })

  -- The key schedule and the first step of the receiving chain, with the text.
  unfoldable pub first_received :
      Client → InitialMessage → SharedSecrets → Result (SessionState × Stepped)
  first_received client message secrets =
      and_then
        (prefix_error "handshake key schedule failed: " (
          derive_handshake_keys host (concat_parts (ikm_parts secrets)) message.transcript_hash
            false))
        λ keys.
          let state = responder_session client message keys in
          and_then
            (prefix_error "initial payload decrypt failed: " (
              decrypt_chain_step host state.recv_chain_key state.recv_counter message.initial_nonce
                message.initial_ciphertext message.transcript_hash))
            λ stepped. ok (received_session stepped state, stepped)

  -- The text that it pushes on `plaintext_out`.
  unfoldable pub handle_initial_message : InitialMessage → Act W Bytes
  handle_initial_message message = do
    selected ← check_initial message
    authenticate_initial message
    client ← current
    secrets ← responder_secrets client message selected
    first ← returned (first_received client message secrets)
    remember_guards host message.session_id message.transcript_hash
    update (use_prekeys selected)
    update (set_session message.from_user first.0)
    pure first.1.text
