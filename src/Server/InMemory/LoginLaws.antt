-- ===== src/Server/InMemory/LoginLaws.antt =====
-- What a successful login shows, and that a challenge serves once: FinishTransportAuthentication of
-- src/server/in_memory_server.cpp.
use pqchat.Crypto.{OpenSsl, mldsa65_verify, mldsa65_verify-accepted}
use pqchat.Prelude.{
  Bytes, List, Map, Option, ap, arith, bytes_eq_sound, false, inl, inr, insert, insert_self, none,
  refl, retain_sound, some, sym, true, ℕ, ◌∙◌, ◌≡◌, ◌≢◌, ◌≤◌,
}
use pqchat.Protocol.SignInputs.{build_transport_auth_sign_input}
use pqchat.Protocol.TransportAuth.{AuthFinishRequest, AuthFinishResponse}
use pqchat.Result.{Result-cases, ok}
use pqchat.Server.InMemory.Hex.{to_hex}
use pqchat.Server.InMemory.Login.{
  check_challenge, check_signature, finish_limited, finish_transport_authentication, later, matches,
  open_session, use_challenge,
}
use pqchat.Server.InMemory.RateLimit.{
  auth_rate_window_seconds, cleanup_auth_state, enforce_rate_limit,
  max_auth_finish_attempts_per_window,
}
use pqchat.Server.InMemory.State.{ChallengeState, InMemoryServer, SessionState, empty}

pub record ChallengeAccepted (now : ℕ) (challenge : ChallengeState) (request : AuthFinishRequest)
    : Type 0 where
  pub fresh : challenge.used ≡ false
  pub user : challenge.user_id ≡ request.user_id
  pub client : challenge.client_nonce ≡ request.client_nonce
  pub nonce : challenge.server_nonce ≡ request.server_nonce
  pub expiry : challenge.expires_at_unix ≡ request.expires_at_unix
  pub in_time : now ≤ challenge.expires_at_unix

matches_sound :
    (c : ChallengeState) (request : AuthFinishRequest)
    → matches c request ≡ true
    → (c.user_id ≡ request.user_id)
      × (c.client_nonce ≡ request.client_nonce)
      × (c.server_nonce ≡ request.server_nonce)
      × (c.expires_at_unix ≡ request.expires_at_unix)
unfolding matches
matches_sound c request h = ground (
  arith,
  bytes_eq_sound c.user_id request.user_id,
  bytes_eq_sound c.client_nonce request.client_nonce,
  bytes_eq_sound c.server_nonce request.server_nonce,
)

check_challenge_sound :
    (now : ℕ) (found : Option ChallengeState) (request : AuthFinishRequest) (c : ChallengeState)
    → check_challenge now found request ≡ ok c
    → (found ≡ some c) × (c.used ≡ false) × (matches c request ≡ true) × (now ≤ c.expires_at_unix)
unfolding check_challenge
check_challenge_sound now none request c h = cc
check_challenge_sound now (some d) request c h = ground arith

module _ (o : OpenSsl) (now : ℕ) (drawn : Option Bytes) (request : AuthFinishRequest)
    (response : AuthFinishResponse) where
  finish_limited-ok :
      (server after : InMemoryServer)
      → finish_limited o now drawn request server ≡ (ok response, after)
      → (c : ChallengeState) × (attempts : Map (List ℕ)) × (check_challenge now
            (server.challenges request.challenge_id)
            request
          ≡ ok c)
        × (use_challenge o now drawn request c (record server { auth_finish_attempts = attempts })
            ≡ (ok response, after))
  unfolding finish_limited
  finish_limited-ok server after e =
      elim (Result-cases (check_challenge now (server.challenges request.challenge_id) request)) [
        | inl (text, h) ↦ absurd (ground arith)
        | inr (c, h) ↦ (
          c,
          (enforce_rate_limit server.auth_finish_attempts request.user_id now
              max_auth_finish_attempts_per_window auth_rate_window_seconds
              "auth finish rate limit exceeded").1,
          h,
          ground arith,
        )
      ]

  abbrev signed_input : Bytes
  signed_input =
      build_transport_auth_sign_input request.user_id request.client_nonce request.server_nonce
        request.challenge_id request.expires_at_unix

  check_signature-ok :
      (identity : Option Bytes)
      → check_signature o identity request ≡ ok tt
      → (key : Bytes) × (identity ≡ some key)
        × (mldsa65_verify o key signed_input request.signature_mldsa65 ≡ ok tt)
  unfolding check_signature
  check_signature-ok none e = cc
  check_signature-ok (some key) e = (key, refl, ground arith)

  abbrev opened : SessionState
  opened = record { user_id = request.user_id; expires_at_unix = later now 900 }

  open_session-ok :
      (server after : InMemoryServer)
      → open_session o now drawn request server ≡ (ok response, after)
      → (after ≡ record server {
        sessions = insert (to_hex response.session_token) opened server.sessions;
      })
        × (response.expires_at_unix ≡ later now 900)
        × (empty response.session_token ≡ false)
  unfolding open_session
  open_session-ok server after e = ground arith

  use_challenge-ok :
      (c : ChallengeState) (server after : InMemoryServer)
      → use_challenge o now drawn request c server ≡ (ok response, after)
      → (check_signature o (server.transport_identities request.user_id) request ≡ ok tt)
        × (open_session o now drawn request (record server {
          challenges = insert request.challenge_id (record c { used = true }) server.challenges;
        })
            ≡ (ok response, after))
  unfolding use_challenge
  use_challenge-ok c server after e = ground arith

-- What the server checked before it opened a session, and what it changed.
pub record LoggedIn (o : OpenSsl) (now : ℕ) (request : AuthFinishRequest)
    (before after : InMemoryServer) (response : AuthFinishResponse) : Type 0 where
  pub challenge : ChallengeState
  pub stored : before.challenges request.challenge_id ≡ some challenge
  pub accepted : ChallengeAccepted now challenge request
  pub key : Bytes
  pub registered : before.transport_identities request.user_id ≡ some key
  pub signed :
      o.mldsa_verify key
        (build_transport_auth_sign_input request.user_id request.client_nonce request.server_nonce
          request.challenge_id request.expires_at_unix)
        request.signature_mldsa65
      ≡ true
  pub spent : after.challenges request.challenge_id ≡ some (record challenge { used = true })
  pub expiry : response.expires_at_unix ≡ later now 900
  pub session :
      after.sessions (to_hex response.session_token)
      ≡ some (record { user_id = request.user_id; expires_at_unix = response.expires_at_unix })

-- A login succeeds only for a stored challenge that was not used, names the same user, nonces and
-- expiry and has not expired, with a signature of these that OpenSSL accepts under the key that is
-- registered for the user. Then the challenge is used, and the new token's session is the user's.
pub finish_transport_authentication-LoggedIn :
    (o : OpenSsl) (now : ℕ) (drawn : Option Bytes) (request : AuthFinishRequest)
    (server after : InMemoryServer) (response : AuthFinishResponse)
    → finish_transport_authentication o now drawn request server ≡ (ok response, after)
    → LoggedIn o now request server after response
unfolding finish_transport_authentication cleanup_auth_state
finish_transport_authentication-LoggedIn o now drawn request server after response e =
    let limited : finish_limited o now drawn request (cleanup_auth_state now server)
        ≡ (ok response, after) =
      ground arith in
    let (c, attempts, checked, used) =
      finish_limited-ok o now drawn request response (cleanup_auth_state now server) after
        limited in
    let (found, fresh, same, in_time) = check_challenge_sound now _ request c checked in
    let (user, client, nonce, expiry) = matches_sound c request same in
    let (signature, opening) = use_challenge-ok o now drawn request response c _ after used in
    let (key, registered, verified) = check_signature-ok o now drawn request response _ signature in
    let (changed, until, present) = open_session-ok o now drawn request response _ after opening in
    record {
      challenge = c;
      stored = (retain_sound _ server.challenges request.challenge_id c found).0;
      accepted = record {
        fresh = fresh;
        user = user;
        client = client;
        nonce = nonce;
        expiry = expiry;
        in_time = in_time;
      };
      key = key;
      registered = registered;
      signed = mldsa65_verify-accepted o key _ request.signature_mldsa65 verified;
      spent =
          ap (λ (t : InMemoryServer). t.challenges request.challenge_id) changed
          ∙ insert_self request.challenge_id _ _;
      expiry = until;
      session =
          ap (λ (t : InMemoryServer). t.sessions (to_hex response.session_token)) changed
          ∙ insert_self (to_hex response.session_token) _ _
          ∙ ap (λ (t : ℕ). some (record { user_id = request.user_id; expires_at_unix = t }))
              (sym until);
    }

-- A challenge serves one login: in the state that a login leaves, no other login with the same
-- challenge id succeeds, at any time, for any user, with any signature.
pub challenge_single_use :
    (o : OpenSsl) (now later_on : ℕ) (drawn drawn' : Option Bytes)
    (request again : AuthFinishRequest) (server after end : InMemoryServer)
    (response response' : AuthFinishResponse)
    → finish_transport_authentication o now drawn request server ≡ (ok response, after)
    → again.challenge_id ≡ request.challenge_id
    → finish_transport_authentication o later_on drawn' again after ≢ (ok response', end)
challenge_single_use o now later_on drawn drawn' request again server after end response response' e
      same e' =
    let first =
      finish_transport_authentication-LoggedIn o now drawn request server after response e in
    let second =
      finish_transport_authentication-LoggedIn o later_on drawn' again after end response' e' in
    cc (first.spent, second.stored, second.accepted.fresh, same)
