-- ===== src/Examples/Serving.antt =====
-- A server that runs: src/server/in_memory_server.cpp, with a library that accepts each signature.
use pqchat.Crypto.{OpenSsl, ed25519_verify, mldsa65_verify, public_key_from_raw}
use pqchat.Prelude.{
  Bytes, List, [], ap, arith, bytes_eq, codes, drop, empty_map, false, insert, length, none, refl,
  retain, some, suc, take, true, zero, ℕ, ◌↔◌, ◌∷◌, ◌≡◌, ◌≢◌,
}
use pqchat.Protocol.BundleLaws.{BundleAccepted, verify_prekey_bundle_signatures-accepted}
use pqchat.Protocol.Messages.{Envelope, from_chat}
use pqchat.Protocol.PrekeyBundle.{PrekeyBundle}
use pqchat.Protocol.Serialization.Envelopes.{or_missing, serialize_envelope, write_chat_envelope}
use pqchat.Protocol.Serialization.Messages.{write_chat_message, write_message_header}
use pqchat.Protocol.Serialization.Writer.{
  write_bytes, write_octets, write_optional, write_optional_bytes, write_string, write_u32,
  write_u64, write_u8,
}
use pqchat.Protocol.SignInputs.{
  cipher_suite, protocol_version, verify_prekey_bundle_signatures, verify_signatures,
}
use pqchat.Protocol.TransportAuth.{
  AuthBeginRequest, AuthFinishRequest, AuthFinishResponse, RegisterRequest,
}
use pqchat.Result.{ok}
use pqchat.Server.InMemory.Bundles.{
  acquire_bundle_for_session, check_bundle, hand_out, publish_bundle,
}
use pqchat.Server.InMemory.Delivery.{Drained, drain_inbox-Drained, last_id, next_drain_continues}
use pqchat.Server.InMemory.Hex.{
  hex_value, is_user_id_char, is_valid_challenge_id, is_valid_hex_string, is_valid_user_id, to_hex,
}
use pqchat.Server.InMemory.Inbox.{batch_is_full, collect_batch, drain_inbox, enqueue_envelope}
use pqchat.Server.InMemory.InboxLaws.{map_items}
use pqchat.Server.InMemory.Invariants.{Invariant, Reachable-Invariant, acquired_bundle_verified}
use pqchat.Server.InMemory.Login.{
  begin_limited, begin_transport_authentication, check_begin, check_challenge, check_finish,
  check_signature, finish_limited, finish_transport_authentication, later, matches, open_challenge,
  open_session, use_challenge,
}
use pqchat.Server.InMemory.LoginComplete.{Prepared, finish_transport_authentication_complete}
use pqchat.Server.InMemory.LoginLaws.{
  LoggedIn, challenge_single_use, finish_transport_authentication-LoggedIn,
}
use pqchat.Server.InMemory.RateLimit.{
  cleanup_auth_state, enforce_rate_limit, trim_buckets, trim_window,
}
use pqchat.Server.InMemory.Reachable.{Reachable, enqueues, goes_on, publishes, starts}
use pqchat.Server.InMemory.Registration.{
  bad_signature_size, check_registration, check_token, is_recovered, is_rotated, register_existing,
  register_new, register_transport_identity,
}
use pqchat.Server.InMemory.RegistrationLaws.{
  OthersKept, Registered, register_transport_identity-OthersKept,
  register_transport_identity-Registered, register_transport_identity-revokes,
}
use pqchat.Server.InMemory.SessionLaws.{LiveSession, authenticate_session_token_iff}
use pqchat.Server.InMemory.Sessions.{authenticate_session_token}
use pqchat.Server.InMemory.State.{
  ChallengeState, InMemoryServer, InboxEntry, new_server, random_bytes,
}
use pqchat.Server.InMemory.Windows.{Reachable-WindowsBounded, WindowsBounded}

abbrev pub accepting : OpenSsl
accepting = record {
  mldsa_available = true;
  fromdata_init = true;
  mldsa_public_key = λ key. true;
  ed25519_public_key = λ key. true;
  md_ctx_new = true;
  verify_init = λ key. true;
  mldsa_verify = λ key message signature. true;
  ed25519_verify = λ key message signature. true;
  hmac = λ key message. some (1 ∷ []);
  sha256 = λ message. some (2 ∷ []);
  same_bytes = bytes_eq;
}

abbrev zeros : ℕ → Bytes
zeros zero = []
zeros (suc n) = 0 ∷ zeros n

abbrev registration : RegisterRequest
registration = record {
  user_id = codes "al";
  transport_auth_public_key = 1 ∷ [];
  registration_token = [];
  proof_signature_mldsa65 = zeros 64;
  rotation_signature_mldsa65 = none;
}

abbrev rotation : RegisterRequest
rotation = record registration {
  transport_auth_public_key = 2 ∷ [];
  rotation_signature_mldsa65 = some (zeros 64);
}

abbrev first : InMemoryServer
first = new_server []

abbrev registered : InMemoryServer
registered = (register_transport_identity accepting registration first).1

register_transport_identity-Registered_example : Registered accepting registration first registered
unfolding register_transport_identity check_registration is_valid_user_id is_user_id_char
    bad_signature_size mldsa65_verify public_key_from_raw register_new check_token new_server
register_transport_identity-Registered_example =
    register_transport_identity-Registered accepting registration first registered refl

register_transport_identity-OthersKept_example : OthersKept (codes "al") first registered
register_transport_identity-OthersKept_example =
    register_transport_identity-OthersKept accepting registration first

abbrev login_start : AuthBeginRequest
login_start = record { user_id = codes "al"; client_nonce = zeros 32 }

abbrev challenged : InMemoryServer
challenged =
    (begin_transport_authentication 1000 (some (zeros 16)) (some (zeros 32)) login_start
      registered).1

abbrev login : AuthFinishRequest
login = record {
  user_id = codes "al";
  challenge_id = to_hex (zeros 16);
  client_nonce = zeros 32;
  server_nonce = zeros 32;
  expires_at_unix = 1060;
  signature_mldsa65 = zeros 64;
}

abbrev token : Bytes
token = 7 ∷ zeros 31

abbrev logged_in : InMemoryServer
logged_in = (finish_transport_authentication accepting 1010 (some token) login challenged).1

abbrev granted : AuthFinishResponse
granted = record { session_token = token; expires_at_unix = 1910 }

logs_in :
    finish_transport_authentication accepting 1010 (some token) login challenged
    ≡ (ok granted, logged_in)
unfolding register_transport_identity check_registration is_valid_user_id is_user_id_char
    bad_signature_size mldsa65_verify public_key_from_raw register_new check_token new_server
    begin_transport_authentication begin_limited check_begin open_challenge cleanup_auth_state
    enforce_rate_limit trim_window trim_buckets finish_transport_authentication finish_limited
    check_finish check_challenge check_signature use_challenge open_session matches
    is_valid_challenge_id is_valid_hex_string hex_value to_hex insert retain bytes_eq
logs_in = refl

abbrev opened_challenge : ChallengeState
opened_challenge = record {
  user_id = codes "al";
  client_nonce = zeros 32;
  server_nonce = zeros 32;
  expires_at_unix = 1060;
  used = false;
}

login-Prepared : Prepared accepting 1010 (some token) login challenged
unfolding register_transport_identity check_registration is_valid_user_id is_user_id_char
    bad_signature_size mldsa65_verify public_key_from_raw register_new check_token new_server
    begin_transport_authentication begin_limited check_begin open_challenge cleanup_auth_state
    enforce_rate_limit trim_window trim_buckets finish_transport_authentication finish_limited
    check_finish check_challenge check_signature use_challenge open_session matches
    is_valid_challenge_id is_valid_hex_string hex_value to_hex insert retain bytes_eq
login-Prepared = record {
  well_formed = refl;
  room = omega arith;
  challenge = opened_challenge;
  stored = refl;
  accepted = record {
    fresh = refl;
    user = refl;
    client = refl;
    nonce = refl;
    expiry = refl;
    in_time = omega arith;
  };
  key = 1 ∷ [];
  registered = refl;
  signed = refl;
  random = refl;
}

finish_transport_authentication_complete_example :
    (finish_transport_authentication accepting 1010 (some token) login challenged).0
    ≡ ok (record { session_token = random_bytes (some token); expires_at_unix = later 1010 900 })
finish_transport_authentication_complete_example =
    finish_transport_authentication_complete accepting 1010 (some token) login challenged
      login-Prepared

finish_transport_authentication-LoggedIn_example :
    LoggedIn accepting 1010 login challenged logged_in granted
finish_transport_authentication-LoggedIn_example =
    finish_transport_authentication-LoggedIn accepting 1010 (some token) login challenged logged_in
      granted logs_in

challenge_single_use_example :
    finish_transport_authentication accepting 1020 (some token) login logged_in
    ≢ (ok granted, logged_in)
challenge_single_use_example =
    challenge_single_use accepting 1010 1020 (some token) (some token) login login challenged
      logged_in logged_in granted granted logs_in refl

abbrev pub with_sessions : InMemoryServer
with_sessions = record first {
  transport_identities = insert (codes "al") (1 ∷ []) empty_map;
  sessions =
      insert (to_hex token) (record { user_id = codes "al"; expires_at_unix = 1910 })
        (insert (codes "k") (record { user_id = codes "bo"; expires_at_unix = 1910 }) empty_map);
}

authenticate_session_token_iff_example :
    ((authenticate_session_token 1500 token with_sessions).0 ≡ ok (codes "al"))
    ↔ LiveSession 1500 token (codes "al") with_sessions
authenticate_session_token_iff_example =
    authenticate_session_token_iff 1500 token (codes "al") with_sessions

abbrev rotated : InMemoryServer
rotated = (register_transport_identity accepting rotation with_sessions).1

register_transport_identity-revokes_example : codes "bo" ≢ codes "al"
unfolding register_transport_identity check_registration is_valid_user_id is_user_id_char
    bad_signature_size mldsa65_verify public_key_from_raw register_existing is_rotated is_recovered
    insert retain bytes_eq to_hex
register_transport_identity-revokes_example =
    register_transport_identity-revokes accepting rotation with_sessions rotated (1 ∷ [])
      (codes "k") (record { user_id = codes "bo"; expires_at_unix = 1910 }) refl refl
      (λ e. cc (ap (λ k. bytes_eq k (2 ∷ [])) e)) refl

abbrev bundle : PrekeyBundle
bundle = record {
  user_id = codes "al";
  identity_sign_public_key = 1 ∷ [];
  identity_mldsa_public_key = 2 ∷ [];
  identity_dh_public_key = 3 ∷ [];
  signed_prekey_ec = record {
    id = 7;
    public_key = 4 ∷ [];
    signature_ed25519 = 5 ∷ [];
    signature_mldsa65 = 6 ∷ [];
  };
  signed_prekey_pq = record {
    id = 8;
    public_key = 7 ∷ [];
    signature_ed25519 = 8 ∷ [];
    signature_mldsa65 = 9 ∷ [];
  };
  one_time_ec = (record { id = 10; public_key = 11 ∷ [] }) ∷ [];
  one_time_pq = (record { id = 12; public_key = 13 ∷ [] }) ∷ [];
  bundle_signature_ed25519 = 14 ∷ [];
  bundle_signature_mldsa65 = 15 ∷ [];
  version = protocol_version;
  cipher_suite = cipher_suite;
}

verify_prekey_bundle_signatures-accepted_example : BundleAccepted accepting bundle
unfolding verify_prekey_bundle_signatures verify_signatures ed25519_verify mldsa65_verify
    public_key_from_raw bytes_eq
verify_prekey_bundle_signatures-accepted_example =
    verify_prekey_bundle_signatures-accepted accepting bundle refl

abbrev published : InMemoryServer
published = (publish_bundle accepting bundle first).1

publishing : Reachable accepting [] published
publishing = goes_on first published starts (publishes bundle first)

abbrev acquired : InMemoryServer
acquired = (acquire_bundle_for_session (codes "al") published).1

acquires_bundle : acquire_bundle_for_session (codes "al") published ≡ (ok bundle, acquired)
unfolding publish_bundle check_bundle verify_prekey_bundle_signatures verify_signatures
    ed25519_verify mldsa65_verify public_key_from_raw bytes_eq insert acquire_bundle_for_session
    hand_out
acquires_bundle = refl

acquired_bundle_verified_example :
    (verify_prekey_bundle_signatures accepting bundle ≡ ok tt) × (bundle.user_id ≡ codes "al")
acquired_bundle_verified_example =
    acquired_bundle_verified accepting [] (codes "al") published acquired bundle publishing
      acquires_bundle

Reachable-Invariant_example : Invariant accepting published
Reachable-Invariant_example = Reachable-Invariant accepting [] published publishing

Reachable-WindowsBounded_example : WindowsBounded published
Reachable-WindowsBounded_example = Reachable-WindowsBounded accepting [] published publishing

abbrev note : ℕ → Envelope
note n = from_chat (record {
  session_id = codes "s";
  from_user = codes "al";
  to_user = codes "bo";
  header = record {
    sender_ratchet_public_key = none;
    previous_chain_length = 0;
    message_number = n;
    flags = 0;
  };
  nonce = 4 ∷ [];
  ciphertext = 5 ∷ [];
})

abbrev one_sent : InMemoryServer
one_sent = (enqueue_envelope (codes "bo") (note 0) first).1

abbrev two_sent : InMemoryServer
two_sent = (enqueue_envelope (codes "bo") (note 1) one_sent).1

sending : Reachable accepting [] two_sent
unfolding enqueue_envelope insert bytes_eq new_server
sending =
    goes_on one_sent two_sent
      (goes_on first one_sent starts (enqueues (codes "bo") (note 0) first (omega arith)))
      (enqueues (codes "bo") (note 1) one_sent (omega arith))

abbrev entries : List InboxEntry
entries =
    (record { inbox_id = 1; envelope = note 0 }) ∷ (record { inbox_id = 2; envelope = note 1 }) ∷ []

holds_two : two_sent.inbox (codes "bo") ≡ some entries
unfolding enqueue_envelope insert bytes_eq new_server
holds_two = refl

abbrev drained : InMemoryServer
drained = (drain_inbox (codes "bo") none two_sent).1

drains_two : drain_inbox (codes "bo") none two_sent ≡ (ok (map_items entries), drained)
unfolding enqueue_envelope insert bytes_eq new_server drain_inbox collect_batch batch_is_full
    serialize_envelope or_missing write_chat_envelope write_chat_message write_message_header
    write_string write_bytes write_u8 write_u32 write_u64 write_octets write_optional_bytes
    write_optional
drains_two = refl

drain_inbox-Drained_example : Drained none (codes "bo") entries drained (map_items entries)
drain_inbox-Drained_example =
    drain_inbox-Drained (codes "bo") none two_sent drained entries (map_items entries) holds_two
      drains_two

next_drain_continues_example :
    (map_items entries ≡ map_items (take (length (map_items entries)) entries))
    × ((drain_inbox (codes "bo") (some (last_id 0 (map_items entries))) drained).1.inbox
          (codes "bo")
        ≡ some (drop (length (map_items entries)) entries))
next_drain_continues_example =
    next_drain_continues accepting [] (codes "bo") two_sent drained entries (map_items entries)
      sending holds_two drains_two
