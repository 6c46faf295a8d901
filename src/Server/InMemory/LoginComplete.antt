-- ===== src/Server/InMemory/LoginComplete.antt =====
-- That a login succeeds: FinishTransportAuthentication of src/server/in_memory_server.cpp.
use pqchat.Crypto.{OpenSsl, mldsa65_verify}
use pqchat.Prelude.{
  Bytes, Option, [], arith, bytes_eq, bytes_eq_refl, false, length, ltb, not, retain, retain-kept,
  some, subst, true, ℕ, ◌<◌, ◌||◌, ◌≡◌,
}
use pqchat.Protocol.SignInputs.{build_transport_auth_sign_input}
use pqchat.Protocol.TransportAuth.{AuthFinishRequest}
use pqchat.Result.{ok}
use pqchat.Server.InMemory.Login.{
  check_challenge, check_finish, check_signature, finish_limited, finish_transport_authentication,
  later, matches, open_session, use_challenge,
}
use pqchat.Server.InMemory.LoginLaws.{ChallengeAccepted}
use pqchat.Server.InMemory.RateLimit.{
  auth_rate_window_seconds, cleanup_auth_state, enforce_rate_limit,
  max_auth_finish_attempts_per_window, trim_buckets, trim_window,
}
use pqchat.Server.InMemory.RateLimitLaws.{enforce_rate_limit_iff}
use pqchat.Server.InMemory.State.{ChallengeState, InMemoryServer, empty, random_bytes, value_or}

matches_complete :
    (now : ℕ) (c : ChallengeState) (request : AuthFinishRequest)
    → ChallengeAccepted now c request
    → matches c request ≡ true
unfolding matches
matches_complete now c request a =
    ground (arith, same a.user, same a.client, same a.nonce, a.expiry)
  where
    same : {xs ys : Bytes} → xs ≡ ys → bytes_eq xs ys ≡ true
    same {xs} e = subst (λ zs. bytes_eq xs zs ≡ true) e (bytes_eq_refl xs)

check_challenge_complete :
    (now : ℕ) (c : ChallengeState) (request : AuthFinishRequest)
    → ChallengeAccepted now c request
    → check_challenge now (some c) request ≡ ok c
unfolding check_challenge
check_challenge_complete now c request a =
    ground (arith, a.fresh, a.in_time, matches_complete now c request a)

-- What a client has to bring, and what the surroundings: a request of the right sizes, room in the
-- window, the stored challenge, the registered key with a signature that the check accepts, random bytes.
pub record Prepared (o : OpenSsl) (now : ℕ) (drawn : Option Bytes) (request : AuthFinishRequest)
    (server : InMemoryServer) : Type 0 where
  pub well_formed : check_finish request ≡ ok tt
  pub room :
      length (
        trim_window now auth_rate_window_seconds
          (value_or [] (trim_buckets now server.auth_finish_attempts request.user_id)))
      < max_auth_finish_attempts_per_window
  pub challenge : ChallengeState
  pub stored : server.challenges request.challenge_id ≡ some challenge
  pub accepted : ChallengeAccepted now challenge request
  pub key : Bytes
  pub registered : server.transport_identities request.user_id ≡ some key
  pub signed :
      mldsa65_verify o key
        (build_transport_auth_sign_input request.user_id request.client_nonce request.server_nonce
          request.challenge_id request.expires_at_unix)
        request.signature_mldsa65
      ≡ ok tt
  pub random : empty (random_bytes drawn) ≡ false

module _ (o : OpenSsl) (now : ℕ) (drawn : Option Bytes) (request : AuthFinishRequest)
    (server : InMemoryServer) where
  session_opened :
      (s : InMemoryServer) (c : ChallengeState) (key : Bytes)
      → s.transport_identities request.user_id ≡ some key
      → mldsa65_verify o key
          (build_transport_auth_sign_input request.user_id request.client_nonce request.server_nonce
            request.challenge_id request.expires_at_unix)
          request.signature_mldsa65
        ≡ ok tt
      → empty (random_bytes drawn) ≡ false
      → (use_challenge o now drawn request c s).0
        ≡ ok (record { session_token = random_bytes drawn; expires_at_unix = later now 900 })
  unfolding use_challenge check_signature open_session
  session_opened s c key registered signed random = ground arith

  -- A login succeeds for a well-formed request where the user's window has room, the challenge is stored,
  -- unused, unexpired and repeated exactly, the signature passes the check under the registered key, and
  -- the server draws random bytes. The session lasts 900 seconds.
  pub finish_transport_authentication_complete :
      Prepared o now drawn request server
      → (finish_transport_authentication o now drawn request server).0
        ≡ ok (record { session_token = random_bytes drawn; expires_at_unix = later now 900 })
  unfolding finish_transport_authentication finish_limited cleanup_auth_state
  finish_transport_authentication_complete p =
      let fresh : retain (λ c. not (c.used || ltb c.expires_at_unix now)) server.challenges
            request.challenge_id
          ≡ some p.challenge =
        retain-kept _ server.challenges request.challenge_id p.challenge p.stored
          (ground (arith, p.accepted.fresh, p.accepted.in_time)) in
      let limit =
        enforce_rate_limit_iff now max_auth_finish_attempts_per_window auth_rate_window_seconds
          "auth finish rate limit exceeded" request.user_id
          (trim_buckets now server.auth_finish_attempts) in
      let counted = record (cleanup_auth_state now server) {
        auth_finish_attempts =
            (enforce_rate_limit (trim_buckets now server.auth_finish_attempts) request.user_id now
              max_auth_finish_attempts_per_window auth_rate_window_seconds
              "auth finish rate limit exceeded").1;
      } in
      ground (
        arith,
        p.well_formed,
        limit.0.1 p.room,
        fresh,
        check_challenge_complete now p.challenge request p.accepted,
        session_opened counted p.challenge p.key p.registered p.signed p.random,
      )
