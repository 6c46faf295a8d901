-- ===== src/Server/InMemory/Login.antt =====
-- BeginTransportAuthentication and FinishTransportAuthentication of src/server/in_memory_server.cpp.
-- `now` is NowUnix(); the drawn bytes are what RAND_bytes fills in, where it succeeds.
use pqchat.Crypto.{OpenSsl, check, mldsa65_verify, non_null}
use pqchat.Prelude.{
  Bool, Bytes, Option, bytes_eq, false, if◌then◌else◌, insert, length, ltb, none, not, some, true,
  ℕ, ◌%◌, ◌&&◌, ◌+◌, ◌==◌, ◌^◌, ◌||◌,
}
use pqchat.Protocol.SignInputs.{build_transport_auth_sign_input}
use pqchat.Protocol.TransportAuth.{
  AuthBeginRequest, AuthBeginResponse, AuthFinishRequest, AuthFinishResponse,
}
use pqchat.Result.{Result, err, ok, ◌>>=◌, ◌>>◌}
use pqchat.Server.InMemory.Hex.{is_valid_challenge_id, is_valid_user_id, to_hex}
use pqchat.Server.InMemory.RateLimit.{
  auth_rate_window_seconds, cleanup_auth_state, enforce_rate_limit,
  max_auth_begin_attempts_per_window, max_auth_finish_attempts_per_window,
}
use pqchat.Server.InMemory.Registration.{bad_signature_size, or_else_fail}
use pqchat.Server.InMemory.State.{
  ChallengeState, InMemoryServer, Outcome, SessionState, empty, random_bytes,
}

abbrev expected_auth_nonce_bytes : ℕ
expected_auth_nonce_bytes = 32

-- `RandomHex`
abbrev random_hex : Option Bytes → Bytes
random_hex drawn = to_hex (random_bytes drawn)

unfoldable pub check_begin : AuthBeginRequest → Result (Unit {0})
check_begin request = do
  check (is_valid_user_id request.user_id) "invalid user_id"
  check (length request.client_nonce == expected_auth_nonce_bytes) "invalid client nonce size"

-- `now + seconds` of uint64_t
abbrev pub later : ℕ → ℕ → ℕ
later now seconds = (now + seconds) % 2 ^ 64

unfoldable pub open_challenge :
    ℕ → Option Bytes → Option Bytes → AuthBeginRequest → InMemoryServer → Outcome AuthBeginResponse
open_challenge now drawn_id drawn_nonce request server =
    let response : AuthBeginResponse = record {
      challenge_id = random_hex drawn_id;
      server_nonce = random_bytes drawn_nonce;
      expires_at_unix = later now 60;
    } in
    let state : ChallengeState = record {
      user_id = request.user_id;
      client_nonce = request.client_nonce;
      server_nonce = response.server_nonce;
      expires_at_unix = response.expires_at_unix;
      used = false;
    } in
    if empty response.challenge_id || empty response.server_nonce
    then (err "RNG failed", server)
    else (
      ok response,
      record server { challenges = insert response.challenge_id state server.challenges },
    )

unfoldable pub begin_limited :
    ℕ → Option Bytes → Option Bytes → AuthBeginRequest → InMemoryServer → Outcome AuthBeginResponse
begin_limited now drawn_id drawn_nonce request server =
    let (limit, attempts) =
      enforce_rate_limit server.auth_begin_attempts request.user_id now
        max_auth_begin_attempts_per_window auth_rate_window_seconds
        "auth begin rate limit exceeded" in
    let counted = record server { auth_begin_attempts = attempts } in
    elim limit [
      | err text ↦ (err text, counted)
      | ok _ ↦ elim (counted.transport_identities request.user_id) [
        | none ↦ (err "authentication failed", counted)
        | some key ↦ open_challenge now drawn_id drawn_nonce request counted
      ]
    ]

unfoldable pub begin_transport_authentication :
    ℕ → Option Bytes → Option Bytes → AuthBeginRequest → InMemoryServer → Outcome AuthBeginResponse
begin_transport_authentication now drawn_id drawn_nonce request server =
    let cleaned = cleanup_auth_state now server in
    elim (check_begin request) [
      | err text ↦ (err text, cleaned)
      | ok _ ↦ begin_limited now drawn_id drawn_nonce request cleaned
    ]

unfoldable pub check_finish : AuthFinishRequest → Result (Unit {0})
check_finish request = do
  check (is_valid_user_id request.user_id) "invalid user_id"
  check (is_valid_challenge_id request.challenge_id) "invalid challenge id"
  check
      ((length request.client_nonce == expected_auth_nonce_bytes)
        && (length request.server_nonce == expected_auth_nonce_bytes))
      "invalid auth nonce size"
  check (not (bad_signature_size request.signature_mldsa65)) "invalid auth signature size"

-- What the challenge was opened with is what the request repeats.
unfoldable pub matches : ChallengeState → AuthFinishRequest → Bool
matches challenge request =
    bytes_eq challenge.user_id request.user_id
    && bytes_eq challenge.client_nonce request.client_nonce
    && bytes_eq challenge.server_nonce request.server_nonce
    && (challenge.expires_at_unix == request.expires_at_unix)

unfoldable pub check_challenge :
    ℕ → Option ChallengeState → AuthFinishRequest → Result ChallengeState
check_challenge now found request = do
  challenge ← non_null found "unknown challenge"
  check (not challenge.used) "challenge already used"
  check (matches challenge request) "challenge mismatch"
  check (not (ltb challenge.expires_at_unix now)) "challenge expired"
  ok challenge

module _ (o : OpenSsl) where
  unfoldable pub check_signature : Option Bytes → AuthFinishRequest → Result (Unit {0})
  check_signature identity request = do
    key ← non_null identity "authentication failed"
    or_else_fail "auth signature invalid" (
        mldsa65_verify o key
          (build_transport_auth_sign_input request.user_id request.client_nonce request.server_nonce
            request.challenge_id request.expires_at_unix)
          request.signature_mldsa65)

  unfoldable pub open_session :
      ℕ → Option Bytes → AuthFinishRequest → InMemoryServer → Outcome AuthFinishResponse
  open_session now drawn_token request server =
      let response : AuthFinishResponse = record {
        session_token = random_bytes drawn_token;
        expires_at_unix = later now 900;
      } in
      let session : SessionState = record {
        user_id = request.user_id;
        expires_at_unix = response.expires_at_unix;
      } in
      if empty response.session_token then (err "RNG failed", server) else (
        ok response,
        record server { sessions = insert (to_hex response.session_token) session server.sessions },
      )

  -- From `challenge.used = true` on.
  unfoldable pub use_challenge :
      ℕ
      → Option Bytes
      → AuthFinishRequest
      → ChallengeState
      → InMemoryServer
      → Outcome AuthFinishResponse
  use_challenge now drawn_token request challenge server =
      let used_up = record server {
        challenges =
            insert request.challenge_id (record challenge { used = true }) server.challenges;
      } in
      elim (check_signature (used_up.transport_identities request.user_id) request) [
        | err text ↦ (err text, used_up)
        | ok _ ↦ open_session now drawn_token request used_up
      ]

  unfoldable pub finish_limited :
      ℕ → Option Bytes → AuthFinishRequest → InMemoryServer → Outcome AuthFinishResponse
  finish_limited now drawn_token request server =
      let (limit, attempts) =
        enforce_rate_limit server.auth_finish_attempts request.user_id now
          max_auth_finish_attempts_per_window auth_rate_window_seconds
          "auth finish rate limit exceeded" in
      let counted = record server { auth_finish_attempts = attempts } in
      elim limit [
        | err text ↦ (err text, counted)
        | ok _ ↦ elim (check_challenge now (counted.challenges request.challenge_id) request) [
          | err text ↦ (err text, counted)
          | ok challenge ↦ use_challenge now drawn_token request challenge counted
        ]
      ]

  unfoldable pub finish_transport_authentication :
      ℕ → Option Bytes → AuthFinishRequest → InMemoryServer → Outcome AuthFinishResponse
  finish_transport_authentication now drawn_token request server =
      let cleaned = cleanup_auth_state now server in
      elim (check_finish request) [
        | err text ↦ (err text, cleaned)
        | ok _ ↦ finish_limited now drawn_token request cleaned
      ]
