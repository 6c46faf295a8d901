-- ===== src/Server/InMemory/RegistrationLaws.antt =====
-- Who may register a key, and what a registration changes: RegisterTransportIdentity of
-- src/server/in_memory_server.cpp.
use pqchat.Crypto.{OpenSsl, hmac_sha256, mldsa65_verify, mldsa65_verify-accepted}
use pqchat.Prelude.{
  Bool-cases, Bytes, Map, Option, Option-cases, ap, arith, bytes_eq, bytes_eq_refl, bytes_eq_sound,
  false, inl, inr, insert, insert_other, insert_self, length, none, not, refl, retain, retain-kept,
  retain_sound, some, subst, sym, true, ◌||◌, ◌∙◌, ◌≡◌, ◌≢◌, ◌⊎◌,
}
use pqchat.Protocol.SignInputs.{
  build_transport_register_rotate_sign_input, build_transport_register_sign_input,
}
use pqchat.Protocol.TransportAuth.{RegisterRequest}
use pqchat.Result.{Result, Result-cases, err, ok}
use pqchat.Server.InMemory.Hex.{decode_hex}
use pqchat.Server.InMemory.Registration.{
  check_registration, check_token, is_recovered, is_rotated, register_checked, register_existing,
  register_new, register_transport_identity, verify_provisioning_token,
}
use pqchat.Server.InMemory.State.{InMemoryServer, SessionState, empty}

-- The token in the request is the text of the HMAC of the user under the server's secret.
pub record TokenValid (o : OpenSsl) (request : RegisterRequest) (secret : Bytes) : Type 0 where
  pub expected : Bytes
  pub provided : Bytes
  pub derived : o.hmac secret request.user_id ≡ some expected
  pub decoded : decode_hex request.registration_token ≡ ok provided
  pub one_size : length expected ≡ length provided
  pub same : o.same_bytes expected provided ≡ true

-- The request holds a signature of the change that OpenSSL accepts under the key that it replaces.
pub record RotationSigned (o : OpenSsl) (request : RegisterRequest) (old : Bytes) : Type 0 where
  pub signature : Bytes
  pub given : request.rotation_signature_mldsa65 ≡ some signature
  pub accepted :
      o.mldsa_verify old
        (build_transport_register_rotate_sign_input request.user_id old
          request.transport_auth_public_key)
        signature
      ≡ true

abbrev MayReplace : OpenSsl → RegisterRequest → Bytes → Bytes → Type 0
MayReplace o request old required =
    RotationSigned o request old ⊎ ((empty required ≡ false) × TokenValid o request required)

abbrev TokenShown : OpenSsl → RegisterRequest → Bytes → Type 0
TokenShown o request required = (empty required ≡ true) ⊎ TokenValid o request required

-- Why a registration was let through, by what was registered before.
abbrev Entitled : OpenSsl → RegisterRequest → Bytes → Option Bytes → Type 0
Entitled o request required none = TokenShown o request required
Entitled o request required (some old) =
    (old ≡ request.transport_auth_public_key) ⊎ MayReplace o request old required

pub record Registered (o : OpenSsl) (request : RegisterRequest) (before after : InMemoryServer)
    : Type 0 where
  pub proof :
      o.mldsa_verify request.transport_auth_public_key
        (build_transport_register_sign_input request.user_id request.transport_auth_public_key)
        request.proof_signature_mldsa65
      ≡ true
  pub entitled :
      Entitled o request before.required_registration_token
        (before.transport_identities request.user_id)
  pub key : after.transport_identities request.user_id ≡ some request.transport_auth_public_key

module _ (o : OpenSsl) (request : RegisterRequest) where
  proof_accepted :
      check_registration o request ≡ ok tt
      → o.mldsa_verify request.transport_auth_public_key
          (build_transport_register_sign_input request.user_id request.transport_auth_public_key)
          request.proof_signature_mldsa65
        ≡ true
  unfolding check_registration
  proof_accepted e =
      mldsa65_verify-accepted o request.transport_auth_public_key
        (build_transport_register_sign_input request.user_id request.transport_auth_public_key)
        request.proof_signature_mldsa65 (ground arith)

  token_valid :
      (secret : Bytes)
      → verify_provisioning_token o secret request.user_id request.registration_token ≡ ok tt
      → TokenValid o request secret
  unfolding verify_provisioning_token hmac_sha256
  token_valid secret e = elim (Option-cases (o.hmac secret request.user_id)) [
    | inl missing ↦ absurd (ground arith)
    | inr (expected, derived) ↦ elim (Result-cases (decode_hex request.registration_token)) [
      | inl (text, bad) ↦ absurd (ground arith)
      | inr (provided, decoded) ↦ record {
        expected = expected;
        provided = provided;
        derived = derived;
        decoded = decoded;
        one_size = ground arith;
        same = ground arith;
      }
    ]
  ]

  rotation_signed : (old : Bytes) → is_rotated o request old ≡ true → RotationSigned o request old
  unfolding is_rotated
  rotation_signed old e = elim (Option-cases request.rotation_signature_mldsa65) [
    | inl missing ↦ absurd (ground arith)
    | inr (signature, given) ↦
        let valid : mldsa65_verify o old
              (build_transport_register_rotate_sign_input request.user_id old
                request.transport_auth_public_key)
              signature
            ≡ ok tt =
          ground arith in
        record {
          signature = signature;
          given = given;
          accepted = mldsa65_verify-accepted o old _ signature valid;
        }
  ]

  token_recovers :
      (required : Bytes)
      → is_recovered o request required ≡ true
      → (empty required ≡ false) × TokenValid o request required
  unfolding is_recovered
  token_recovers required e = (ground arith, token_valid required (ground arith))

  new_registered :
      (server after : InMemoryServer)
      → register_new o request server ≡ (ok tt, after)
      → TokenShown o request server.required_registration_token
        × (after.transport_identities request.user_id ≡ some request.transport_auth_public_key)
  unfolding register_new check_token
  new_registered server after e = ground (
    arith,
    insert_self request.user_id request.transport_auth_public_key server.transport_identities,
    token_valid server.required_registration_token,
  )

  existing_registered :
      (old : Bytes) (server after : InMemoryServer)
      → server.transport_identities request.user_id ≡ some old
      → register_existing o request old server ≡ (ok tt, after)
      → ((old ≡ request.transport_auth_public_key)
          ⊎ MayReplace o request old server.required_registration_token)
        × (after.transport_identities request.user_id ≡ some request.transport_auth_public_key)
  unfolding register_existing
  existing_registered old server after h e = ground (
    arith,
    insert_self request.user_id request.transport_auth_public_key server.transport_identities,
    bytes_eq_sound old request.transport_auth_public_key,
    rotation_signed old,
    token_recovers server.required_registration_token,
  )

-- A registration succeeds only with a proof signature that OpenSSL accepts under the new key. A user
-- who is not registered needs the token where the server requires one; a key that differs from the
-- registered one needs a signature under the registered key or the token. Then the new key is the
-- user's.
pub register_transport_identity-Registered :
    (o : OpenSsl) (request : RegisterRequest) (server after : InMemoryServer)
    → register_transport_identity o request server ≡ (ok tt, after)
    → Registered o request server after
unfolding register_transport_identity
register_transport_identity-Registered o request server after e =
    elim (Option-cases (server.transport_identities request.user_id)) [
      | inl missing ↦
          let (entitled, key) = new_registered o request server after (ground arith) in
          record {
            proof = proof;
            entitled =
                subst (Entitled o request server.required_registration_token) (sym missing)
                  entitled;
            key = key;
          }
      | inr (old, found) ↦
          let (entitled, key) =
            existing_registered o request old server after found (ground arith) in
          record {
            proof = proof;
            entitled =
                subst (Entitled o request server.required_registration_token) (sym found) entitled;
            key = key;
          }
    ]
  where
    checked : check_registration o request ≡ ok tt
    checked = ground arith

    proof :
        o.mldsa_verify request.transport_auth_public_key
          (build_transport_register_sign_input request.user_id request.transport_auth_public_key)
          request.proof_signature_mldsa65
        ≡ true
    proof = proof_accepted o request checked

-- A registration, successful or not, touches no other user: their keys stay, and so do their sessions.
pub record OthersKept (user : Bytes) (before after : InMemoryServer) : Type 0 where
  pub keys :
      (other : Bytes)
      → bytes_eq user other ≡ false
      → after.transport_identities other ≡ before.transport_identities other
  pub sessions :
      (key : Bytes) (session : SessionState)
      → bytes_eq session.user_id user ≡ false
      → before.sessions key ≡ some session
      → after.sessions key ≡ some session

same_server : (user : Bytes) (server : InMemoryServer) → OthersKept user server server
same_server user server = record { keys = λ other h. refl; sessions = λ key session h e. e }

key_stored :
    (user key : Bytes) (server : InMemoryServer)
    → OthersKept user server
        (record server { transport_identities = insert user key server.transport_identities })
key_stored user key server = record {
  keys = λ other h. insert_other user other key server.transport_identities h;
  sessions = λ k session h e. e;
}

key_replaced :
    (user key : Bytes) (server : InMemoryServer)
    → OthersKept user server (record server {
      transport_identities = insert user key server.transport_identities;
      sessions = retain (λ s. not (bytes_eq s.user_id user)) server.sessions;
    })
key_replaced user key server = record {
  keys = λ other h. insert_other user other key server.transport_identities h;
  sessions = λ k session h e. retain-kept _ server.sessions k session e (ap not h);
}

module _ (o : OpenSsl) (request : RegisterRequest) where
  abbrev Kept : InMemoryServer → InMemoryServer → Type 0
  Kept = OthersKept request.user_id

  new-Kept : (server : InMemoryServer) → Kept server (register_new o request server).1
  unfolding register_new
  new-Kept server = go (check_token o request server.required_registration_token)
    where
      go : (r : Result (Unit {0})) → Kept server (register_checked o r request server).1
      go (ok _) = key_stored request.user_id request.transport_auth_public_key server
      go (err text) = same_server request.user_id server

  existing-Kept :
      (old : Bytes) (server : InMemoryServer)
      → Kept server (register_existing o request old server).1
  unfolding register_existing
  existing-Kept old server = elim (Bool-cases (bytes_eq old request.transport_auth_public_key)) [
    | inl same ↦ rw same (same_server request.user_id server)
    | inr other ↦
        elim (Bool-cases
          (is_rotated o request old || is_recovered o request server.required_registration_token)) [
            | inl allowed ↦
                rw (other, allowed)
                  (key_replaced request.user_id request.transport_auth_public_key server)
            | inr refused ↦ rw (other, refused) (same_server request.user_id server)
          ]
  ]

  -- A registration, whatever its outcome, leaves every other user's key and sessions as they were.
  pub register_transport_identity-OthersKept :
      (server : InMemoryServer)
      → OthersKept request.user_id server (register_transport_identity o request server).1
  unfolding register_transport_identity
  register_transport_identity-OthersKept server =
      elim (Result-cases (check_registration o request)) [
        | inl (text, h) ↦ rw (h, register_transport_identity) (same_server request.user_id server)
        | inr (_, h) ↦ elim (Option-cases (server.transport_identities request.user_id)) [
          | inl missing ↦ rw (h, register_transport_identity, missing) (new-Kept server)
          | inr (old, found) ↦ rw (h, register_transport_identity, found) (existing-Kept old server)
        ]
      ]

  -- Where a successful registration replaces the user's key by another, no session of the user is
  -- left.
  pub register_transport_identity-revokes :
      (server after : InMemoryServer) (old key : Bytes) (session : SessionState)
      → register_transport_identity o request server ≡ (ok tt, after)
      → server.transport_identities request.user_id ≡ some old
      → old ≢ request.transport_auth_public_key
      → after.sessions key ≡ some session
      → session.user_id ≢ request.user_id
  unfolding register_transport_identity register_existing
  register_transport_identity-revokes server after old key session e found changed left same =
      elim (Bool-cases (bytes_eq old request.transport_auth_public_key)) [
        | inl equal ↦ changed (bytes_eq_sound old request.transport_auth_public_key equal)
        | inr other ↦
            let shrunk : after.sessions
                ≡ retain (λ s. not (bytes_eq s.user_id request.user_id)) server.sessions =
              ground arith in
            let left_session =
              (retain_sound _ server.sessions key session
                (ap (λ (m : Map SessionState). m key) (sym shrunk) ∙ left)).1 in
            let self : bytes_eq session.user_id request.user_id ≡ true =
              rw same (bytes_eq_refl request.user_id) in
            cc (left_session, self)
      ]
