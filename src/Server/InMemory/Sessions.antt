-- ===== src/Server/InMemory/Sessions.antt =====
-- AuthenticateSessionToken and RevokeSessionToken of src/server/in_memory_server.cpp.
use pqchat.Crypto.{check, non_null}
use pqchat.Prelude.{Bytes, Option, erase, if◌then◌else◌, length, ltb, none, not, some, ℕ, ◌==◌}
use pqchat.Result.{Result, err, ok, ◌>>=◌, ◌>>◌}
use pqchat.Server.InMemory.Hex.{to_hex}
use pqchat.Server.InMemory.RateLimit.{cleanup_auth_state}
use pqchat.Server.InMemory.State.{InMemoryServer, Outcome, SessionState}

abbrev pub expected_session_token_bytes : ℕ
expected_session_token_bytes = 32

unfoldable pub session_user : ℕ → Option SessionState → Result Bytes
session_user now found = do
  session ← non_null found "invalid session"
  check (not (ltb session.expires_at_unix now)) "session expired"
  ok session.user_id

unfoldable pub authenticate_session_token : ℕ → Bytes → InMemoryServer → Outcome Bytes
authenticate_session_token now session_token server =
    let cleaned = cleanup_auth_state now server in
    if not (length session_token == expected_session_token_bytes)
    then (err "invalid session token size", cleaned)
    else (session_user now (cleaned.sessions (to_hex session_token)), cleaned)

unfoldable pub revoke_session_token : Bytes → InMemoryServer → Outcome (Unit {0})
revoke_session_token session_token server =
    if not (length session_token == expected_session_token_bytes)
    then (err "invalid session token size", server)
    else elim (server.sessions (to_hex session_token)) [
      | none ↦ (err "invalid session", server)
      | some session ↦
          (ok tt, record server { sessions = erase (to_hex session_token) server.sessions })
    ]
