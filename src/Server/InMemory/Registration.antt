-- ===== src/Server/InMemory/Registration.antt =====
-- VerifyProvisioningToken and RegisterTransportIdentity of src/server/in_memory_server.cpp.
use pqchat.Crypto.{OpenSsl, check, hmac_sha256, mldsa65_verify}
use pqchat.Prelude.{
  Bool, Bytes, Option, String, bytes_eq, false, if◌then◌else◌, insert, length, ltb, none, not,
  retain, some, true, ℕ, ◌*◌, ◌==◌, ◌||◌,
}
use pqchat.Protocol.SignInputs.{
  build_transport_register_rotate_sign_input, build_transport_register_sign_input,
}
use pqchat.Protocol.TransportAuth.{RegisterRequest}
use pqchat.Result.{Result, err, ok, ◌>>=◌, ◌>>◌}
use pqchat.Server.InMemory.Hex.{decode_hex, is_valid_user_id}
use pqchat.Server.InMemory.State.{InMemoryServer, Outcome, empty}

abbrev max_transport_auth_public_key_bytes : ℕ
max_transport_auth_public_key_bytes = 8192

abbrev min_mldsa_signature_bytes : ℕ
min_mldsa_signature_bytes = 64

abbrev max_mldsa_signature_bytes : ℕ
max_mldsa_signature_bytes = 8192

-- `size < kMinMlDsaSignatureBytes || size > kMaxMlDsaSignatureBytes`
unfoldable pub bad_signature_size : Bytes → Bool
bad_signature_size signature =
    ltb (length signature) min_mldsa_signature_bytes
    || ltb max_mldsa_signature_bytes (length signature)

abbrev bad_optional_signature_size : Option Bytes → Bool
bad_optional_signature_size none = false
bad_optional_signature_size (some signature) = bad_signature_size signature

abbrev pub succeeded : {A : Type 0} → Result A → Bool
succeeded (ok a) = true
succeeded (err text) = false

-- `if (!result.ok()) return Err(text)`
abbrev pub or_else_fail : {A : Type 0} → String → Result A → Result A
or_else_fail text (ok a) = ok a
or_else_fail text (err cause) = err text

module _ (o : OpenSsl) where
  unfoldable pub verify_provisioning_token : Bytes → Bytes → Bytes → Result (Unit {0})
  verify_provisioning_token provisioning_secret user_id token_hex = do
    expected ←
        or_else_fail "failed to derive registration token"
          (hmac_sha256 o provisioning_secret user_id)
    check (length token_hex == length expected * 2) "invalid registration token"
    provided ← or_else_fail "invalid registration token" (decode_hex token_hex)
    check (length expected == length provided) "invalid registration token"
    check (o.same_bytes expected provided) "invalid registration token"

  unfoldable pub check_token : RegisterRequest → Bytes → Result (Unit {0})
  check_token request required =
      if empty required
      then ok tt
      else verify_provisioning_token required request.user_id request.registration_token

  -- A user that is not registered yet.
  abbrev pub register_checked :
      Result (Unit {0}) → RegisterRequest → InMemoryServer → Outcome (Unit {0})
  register_checked (err text) request server = (err text, server)
  register_checked (ok _) request server = (
    ok tt,
    record server {
      transport_identities =
          insert request.user_id request.transport_auth_public_key server.transport_identities;
    },
  )

  unfoldable pub register_new : RegisterRequest → InMemoryServer → Outcome (Unit {0})
  register_new request server =
      register_checked (check_token request server.required_registration_token) request server

  unfoldable pub is_rotated : RegisterRequest → Bytes → Bool
  is_rotated request existing_key = elim request.rotation_signature_mldsa65 [
    | none ↦ false
    | some signature ↦ succeeded (
        mldsa65_verify o existing_key
          (build_transport_register_rotate_sign_input request.user_id existing_key
            request.transport_auth_public_key)
          signature)
  ]

  unfoldable pub is_recovered : RegisterRequest → Bytes → Bool
  is_recovered request required =
      if empty required
      then false
      else succeeded (verify_provisioning_token required request.user_id request.registration_token)

  -- `rotated || recovered`: the token is tried only where the rotation failed.
  unfoldable pub register_existing : RegisterRequest → Bytes → InMemoryServer → Outcome (Unit {0})
  register_existing request existing_key server =
      if bytes_eq existing_key request.transport_auth_public_key
      then (ok tt, server)
      else if is_rotated request existing_key
          || is_recovered request server.required_registration_token
      then (
        ok tt,
        record server {
          transport_identities =
              insert request.user_id request.transport_auth_public_key server.transport_identities;
          sessions = retain (λ s. not (bytes_eq s.user_id request.user_id)) server.sessions;
        },
      )
      else (
        err "transport identity already registered with different key (rotation/recovery required)",
        server,
      )

  unfoldable pub check_registration : RegisterRequest → Result (Unit {0})
  check_registration request = do
    check (is_valid_user_id request.user_id)
        "invalid user_id (allowed: lowercase a-z, 0-9, '-', '_', '.', max 64)"
    check
        (not (
          (length request.transport_auth_public_key == 0)
          || ltb max_transport_auth_public_key_bytes (length request.transport_auth_public_key)))
        "invalid transport auth public key size"
    check (not (bad_signature_size request.proof_signature_mldsa65))
        "invalid registration proof signature size"
    check (not (bad_optional_signature_size request.rotation_signature_mldsa65))
        "invalid rotation signature size"
    or_else_fail "transport identity registration proof invalid" (
        mldsa65_verify o request.transport_auth_public_key
          (build_transport_register_sign_input request.user_id request.transport_auth_public_key)
          request.proof_signature_mldsa65)

  unfoldable pub register_transport_identity : RegisterRequest → InMemoryServer → Outcome (Unit {0})
  register_transport_identity request server = elim (check_registration request) [
    | err text ↦ (err text, server)
    | ok _ ↦ elim (server.transport_identities request.user_id) [
      | none ↦ register_new request server
      | some existing_key ↦ register_existing request existing_key server
    ]
  ]
