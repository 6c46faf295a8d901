-- ===== src/Server/InMemory/SessionLaws.antt =====
-- Which tokens AuthenticateSessionToken of src/server/in_memory_server.cpp accepts.
use pqchat.Crypto.{OpenSsl}
use pqchat.Prelude.{
  Bytes, Option, arith, erase_self, length, none, refl, retain-kept, retain_sound, some, ℕ, ◌↔◌,
  ◌≡◌, ◌≢◌, ◌≤◌,
}
use pqchat.Protocol.TransportAuth.{AuthFinishRequest, AuthFinishResponse}
use pqchat.Result.{ok}
use pqchat.Server.InMemory.Hex.{to_hex}
use pqchat.Server.InMemory.Login.{finish_transport_authentication}
use pqchat.Server.InMemory.LoginLaws.{finish_transport_authentication-LoggedIn}
use pqchat.Server.InMemory.RateLimit.{cleanup_auth_state}
use pqchat.Server.InMemory.Sessions.{
  authenticate_session_token, expected_session_token_bytes, revoke_session_token, session_user,
}
use pqchat.Server.InMemory.State.{InMemoryServer, SessionState}

pub record LiveSession (now : ℕ) (token user : Bytes) (server : InMemoryServer) : Type 0 where
  pub size : length token ≡ expected_session_token_bytes
  pub session : SessionState
  pub stored : server.sessions (to_hex token) ≡ some session
  pub owner : session.user_id ≡ user
  pub in_time : now ≤ session.expires_at_unix

session_user_sound :
    (now : ℕ) (found : Option SessionState) (user : Bytes)
    → session_user now found ≡ ok user
    → (session : SessionState) × (found ≡ some session)
      × (session.user_id ≡ user)
      × (now ≤ session.expires_at_unix)
unfolding session_user
session_user_sound now none user e = cc
session_user_sound now (some session) user e = (session, refl, ground arith, ground arith)

accepted-live :
    (now : ℕ) (token user : Bytes) (server : InMemoryServer)
    → (authenticate_session_token now token server).0 ≡ ok user
    → LiveSession now token user server
unfolding authenticate_session_token cleanup_auth_state
accepted-live now token user server e =
    let size : length token ≡ expected_session_token_bytes = ground arith in
    let found : session_user now ((cleanup_auth_state now server).sessions (to_hex token))
        ≡ ok user =
      ground arith in
    let (session, stored, owner, in_time) = session_user_sound now _ user found in
    record {
      size = size;
      session = session;
      stored = (retain_sound _ server.sessions (to_hex token) session stored).0;
      owner = owner;
      in_time = in_time;
    }

live-accepted :
    (now : ℕ) (token user : Bytes) (server : InMemoryServer)
    → LiveSession now token user server
    → (authenticate_session_token now token server).0 ≡ ok user
unfolding authenticate_session_token cleanup_auth_state session_user
live-accepted now token user server live =
    let kept : (cleanup_auth_state now server).sessions (to_hex token) ≡ some live.session =
      retain-kept _ server.sessions (to_hex token) live.session live.stored
        (ground (arith, live.in_time)) in
    ground (arith, live.size, live.owner, live.in_time, kept)

-- A token is accepted for a user exactly when it has 32 bytes and the server holds a session of that
-- user under its text that has not expired.
pub authenticate_session_token_iff :
    (now : ℕ) (token user : Bytes) (server : InMemoryServer)
    → ((authenticate_session_token now token server).0 ≡ ok user)
      ↔ LiveSession now token user server
authenticate_session_token_iff now token user server =
    (accepted-live now token user server, live-accepted now token user server)

-- The token of a login, where it has 32 bytes, is accepted for the user who logged in, until it
-- expires.
login_token_accepted :
    (o : OpenSsl) (now at : ℕ) (drawn : Option Bytes) (request : AuthFinishRequest)
    (server after : InMemoryServer) (response : AuthFinishResponse)
    → finish_transport_authentication o now drawn request server ≡ (ok response, after)
    → length response.session_token ≡ expected_session_token_bytes
    → at ≤ response.expires_at_unix
    → (authenticate_session_token at response.session_token after).0 ≡ ok request.user_id
login_token_accepted o now at drawn request server after response e size h =
    let login =
      finish_transport_authentication-LoggedIn o now drawn request server after response e in
    live-accepted at response.session_token request.user_id after (record {
      size = size;
      session = record { user_id = request.user_id; expires_at_unix = response.expires_at_unix };
      stored = login.session;
      owner = refl;
      in_time = h;
    })

-- In the state that a successful revocation leaves, the token is accepted at no time, for no user.
revoke_session_token_ends :
    (now : ℕ) (token user : Bytes) (server after : InMemoryServer)
    → revoke_session_token token server ≡ (ok tt, after)
    → (authenticate_session_token now token after).0 ≢ ok user
unfolding revoke_session_token
revoke_session_token_ends now token user server after e h =
    let live = accepted-live now token user after h in
    let gone : after.sessions (to_hex token) ≡ none =
      ground (arith, erase_self (to_hex token) server.sessions) in
    cc (gone, live.stored)
