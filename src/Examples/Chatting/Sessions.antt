-- ===== src/Examples/Chatting/Sessions.antt =====
-- A session of two clients: src/client/client.cpp.
use pqchat.Client.Accept.{
  Selected, authenticate_initial, check_initial, find_ec, find_pq, first_received,
  handle_initial_message, responder_secrets, responder_transcript, selected_in,
}
use pqchat.Client.Act.{◌>>=◌}
use pqchat.Client.Chat.{sent_session, set_session}
use pqchat.Client.GuardSafety.{GuardsAgree}
use pqchat.Client.Handshake.{
  check_peer_bundle, complete_handshake, first_step, initial_message_of, initiate_session,
  initiator_dh, initiator_session, initiator_transcript, new_session_id, offered_prekeys,
  open_and_send, prepare_offer, remember_guards, sign_handshake,
}
use pqchat.Client.HandshakeAgreed.{handshake-InSync}
use pqchat.Client.HandshakeDone.{first_message}
use pqchat.Client.HandshakeSync.{Owned}
use pqchat.Client.Identity.{
  check_peer, compute_safety_number, has_keys, verify_or_remember_peer_identity,
}
use pqchat.Client.KeySchedule.{
  decrypt_chain_step, derive_handshake_keys, derive_key_material, derive_message_key_and_next_chain,
  encrypt_chain_step,
}
use pqchat.Client.OfferLaws.{Proposed}
use pqchat.Client.OpenLaws.{Opened, duplicate_handshake_rejected, handle_initial_message-Opened}
use pqchat.Client.PrekeyLaws.{IdsUnique}
use pqchat.Client.ReplayGuards.{has_seen_initial_replay_guard, remember_initial_replay_guards}
use pqchat.Client.State.{Client, OneTimeEc, OneTimePq, SessionState}
use pqchat.Client.SyncLaws.{InSync}
use pqchat.Client.UsedUp.{one_time_prekeys_used_up}
use pqchat.Crypto.{ed25519_verify, mldsa65_verify, sha256}
use pqchat.Crypto.Aead.{nonce_from_counter, open_sealed, seal}
use pqchat.Crypto.Keys.{
  ed25519_sign, hkdf_sha256, mldsa65_sign, mlkem_decapsulate, mlkem_encapsulate, x25519_generate,
  x25519_shared_secret,
}
use pqchat.Examples.Chatting.Host.{
  alice, bob, bob_bundle, known_peer, session_at, toy_dh, toy_host, toy_kem,
}
use pqchat.Examples.Chatting.Library.{one_key, toy_cipher, zeros}
use pqchat.Prelude.{
  Bytes, [], ap, arith, bytes_eq, codes, insert, none, refl, some, some-injective, sym, ◌++◌, ◌∙◌,
  ◌∷◌, ◌≡◌,
}
use pqchat.Protocol.PrekeyBundle.{OneTimePrekeyEc, OneTimePrekeyPq}
use pqchat.Protocol.SignInputs.{
  compute_initial_transcript_hash, verify_prekey_bundle_signatures, verify_signatures,
}
use pqchat.Result.{err, ok}
use pqchat.Server.InMemory.State.{value_or}

abbrev pub hello : Bytes
hello = codes "hi"

abbrev opened_at : Client × Unit {0}
opened_at = (initiate_session toy_host (codes "bo") hello alice tt).1

abbrev first_session : SessionState
first_session = value_or (session_at 0) (opened_at.0.sessions_by_peer (codes "bo"))

-- What the call of InitiateSession has drawn, derived and sent.
abbrev proposed : Proposed toy_host (codes "bo") hello alice tt opened_at
unfolding set_session sent_session initiator_transcript initiator_session new_session_id
    remember_guards check_peer_bundle prepare_offer initiator_dh sign_handshake first_step
    open_and_send complete_handshake initiate_session has_keys compute_safety_number check_peer
    verify_or_remember_peer_identity derive_key_material derive_handshake_keys
    derive_message_key_and_next_chain encrypt_chain_step remember_initial_replay_guards
    mldsa65_verify ed25519_verify sha256 seal nonce_from_counter hkdf_sha256 x25519_generate
    x25519_shared_secret ed25519_sign mlkem_encapsulate mldsa65_sign bytes_eq insert
    compute_initial_transcript_hash verify_signatures verify_prekey_bundle_signatures ◌>>=◌
proposed = record {
  bundle = bob_bundle;
  fetched_at = tt;
  fetched = refl;
  offer = record {
    session_id = first_session.session_id;
    peer_user = codes "bo";
    bundle = bob_bundle;
    ec = record { id = 7; public_key = 6 ∷ [] };
    pq = record { id = 8; public_key = 7 ∷ [] };
    eph = one_key 9;
  };
  dh = record { dh1 = 7 ∷ []; dh2 = 7 ∷ []; dh3 = 7 ∷ []; dh4 = 7 ∷ [] };
  after = tt;
  prepared = record {
    vetted = record {
      of_peer = refl;
      signed = refl;
      trusted = record {
        peer = known_peer;
        known = refl;
        same_sign = refl;
        same_mldsa = refl;
        same_dh = refl;
        verified = refl;
      };
    };
    from = tt;
    drawn = refl;
    to_peer = refl;
    of_bundle = refl;
    first_ec = refl;
    first_pq = refl;
  };
  derived = refl;
  initiated = record {
    spk_from = tt;
    opk_from = tt;
    opk_after = tt;
    kem_spk = record { ciphertext = 1 ∷ []; shared_secret = 1 ∷ [] };
    kem_opk = record { ciphertext = 1 ∷ []; shared_secret = 1 ∷ [] };
    spk_drawn = refl;
    opk_drawn = refl;
    transcript_hash = zeros 2;
    signature = 2 ∷ [];
    signature_mldsa = 3 ∷ [];
    session = first_session;
    stepped = record { text = hello ++ zeros 16; chain_key = first_session.send_chain_key };
    stepped_to = refl;
    sent_from = tt;
    queued = tt;
    enqueued = refl;
    stored = refl;
  };
}

abbrev accepted_at : Client × Unit {0}
accepted_at = (handle_initial_message toy_host (first_message proposed) bob tt).1

accepted : handle_initial_message toy_host (first_message proposed) bob tt ≡ (ok hello, accepted_at)
unfolding selected_in find_ec find_pq responder_transcript check_initial authenticate_initial
    responder_secrets first_received handle_initial_message set_session sent_session offered_prekeys
    initiator_transcript initiator_session initial_message_of new_session_id remember_guards
    check_peer_bundle prepare_offer initiator_dh sign_handshake first_step open_and_send
    complete_handshake initiate_session has_keys compute_safety_number check_peer
    verify_or_remember_peer_identity derive_key_material derive_handshake_keys
    derive_message_key_and_next_chain encrypt_chain_step decrypt_chain_step
    has_seen_initial_replay_guard remember_initial_replay_guards mldsa65_verify ed25519_verify
    sha256 seal open_sealed nonce_from_counter hkdf_sha256 x25519_generate x25519_shared_secret
    ed25519_sign mlkem_encapsulate mlkem_decapsulate mldsa65_sign bytes_eq insert
    compute_initial_transcript_hash verify_signatures verify_prekey_bundle_signatures ◌>>=◌
accepted = refl

owned : Owned toy_dh toy_kem bob proposed.bundle
unfolding proposed find_ec find_pq
owned = record {
  identity = refl;
  identity_pair = tt;
  ec = refl;
  ec_pair = tt;
  pq = refl;
  pq_pair = tt;
  one_time_ec = λ key own first found.
      let same = some-injective first in
      let is =
        some-injective
          (ap (λ (k : OneTimePrekeyEc). find_ec k.id bob.one_time_ec_pool) same ∙ found) in
      (
        ap (λ (k : OneTimePrekeyEc). k.public_key) (sym same)
            ∙ ap (λ (k : OneTimeEc). k.private_part.public_key) is,
        tt,
      );
  one_time_pq = λ key own first found.
      let same = some-injective first in
      let is =
        some-injective
          (ap (λ (k : OneTimePrekeyPq). find_pq k.id bob.one_time_pq_pool) same ∙ found) in
      (
        ap (λ (k : OneTimePrekeyPq). k.public_key) (sym same)
            ∙ ap (λ (k : OneTimePq). k.private_part.public_key) is,
        tt,
      );
}

pub guarded : GuardsAgree bob.guards
guarded = record {
  sessions = record { same = λ key. refl; distinct = tt };
  transcripts = record { same = λ key. refl; distinct = tt };
  sessions_bounded = omega arith;
  transcripts_bounded = omega arith;
}

pub unique : IdsUnique bob
unique = record { ec = (refl, tt); pq = (refl, tt); apart = λ key_id. ground arith }

handshake-InSync_example :
    (hello ≡ hello)
    × (a : SessionState) × (b : SessionState) × (opened_at.0.sessions_by_peer bob.user_id ≡ some a)
    × (accepted_at.0.sessions_by_peer alice.user_id ≡ some b)
    × InSync toy_dh a b
handshake-InSync_example =
    handshake-InSync toy_dh toy_kem toy_cipher alice bob proposed tt owned tt hello accepted_at
      accepted

handle_initial_message-Opened_example :
    Opened toy_host (first_message proposed) bob tt hello accepted_at
handle_initial_message-Opened_example =
    handle_initial_message-Opened toy_host (first_message proposed) bob tt hello accepted_at
      accepted

duplicate_handshake_rejected_example :
    handle_initial_message toy_host (first_message proposed) accepted_at.0 tt
    ≡ (err "duplicate initial handshake rejected", (accepted_at.0, tt))
duplicate_handshake_rejected_example =
    duplicate_handshake_rejected toy_host (first_message proposed) bob tt tt hello accepted_at
      guarded accepted

one_time_prekeys_used_up_example :
    (selected : Selected) × (ec : OneTimeEc) × (pq : OneTimePq) × (selected_in
        (first_message proposed)
      ≡ some selected)
    × (find_ec selected.one_time_ec_id bob.one_time_ec_pool ≡ some ec)
    × (find_pq selected.one_time_pq_id bob.one_time_pq_pool ≡ some pq)
    × (find_ec selected.one_time_ec_id accepted_at.0.one_time_ec_pool ≡ none)
    × (find_pq selected.one_time_pq_id accepted_at.0.one_time_pq_pool ≡ none)
one_time_prekeys_used_up_example =
    one_time_prekeys_used_up toy_host (first_message proposed) bob tt hello accepted_at unique
      accepted
