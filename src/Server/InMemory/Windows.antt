-- ===== src/Server/InMemory/Windows.antt =====
-- The windows of attempts in every run of the server: how many attempts to log in a user is left.
use pqchat.Crypto.{OpenSsl}
use pqchat.Prelude.{Bytes, Option, arith, inl, inr, refl, subst, sym, ℕ, ◌≡◌}
use pqchat.Protocol.TransportAuth.{AuthBeginRequest, AuthFinishRequest}
use pqchat.Result.{Result-cases}
use pqchat.Server.InMemory.Bundles.{acquire_bundle_for_session, publish_bundle}
use pqchat.Server.InMemory.Inbox.{drain_inbox, enqueue_envelope}
use pqchat.Server.InMemory.Login.{
  begin_limited, begin_transport_authentication, check_begin, check_finish, finish_limited,
  finish_transport_authentication, open_challenge, open_session, use_challenge,
}
use pqchat.Server.InMemory.RateLimit.{
  auth_rate_window_seconds, cleanup_auth_state, enforce_rate_limit,
  max_auth_begin_attempts_per_window, max_auth_finish_attempts_per_window,
}
use pqchat.Server.InMemory.RateLimitLaws.{Bounded, enforce_rate_limit-Bounded, trim_buckets-Bounded}
use pqchat.Server.InMemory.Reachable.{
  Reachable, Step, acquires, authenticates, begins, drains, enqueues, finishes, goes_on, publishes,
  registers, revokes, starts,
}
use pqchat.Server.InMemory.Registration.{
  register_existing, register_new, register_transport_identity,
}
use pqchat.Server.InMemory.Sessions.{authenticate_session_token, revoke_session_token}
use pqchat.Server.InMemory.State.{InMemoryServer, new_server}

pub record WindowsBounded (s : InMemoryServer) : Type 0 where
  pub begins_bounded : Bounded max_auth_begin_attempts_per_window s.auth_begin_attempts
  pub finishes_bounded : Bounded max_auth_finish_attempts_per_window s.auth_finish_attempts

cleanup-WindowsBounded :
    (now : ℕ) (s : InMemoryServer) → WindowsBounded s → WindowsBounded (cleanup_auth_state now s)
unfolding cleanup_auth_state
cleanup-WindowsBounded now s w = record {
  begins_bounded = trim_buckets-Bounded now _ s.auth_begin_attempts w.begins_bounded;
  finishes_bounded = trim_buckets-Bounded now _ s.auth_finish_attempts w.finishes_bounded;
}

same_windows :
    (s s' : InMemoryServer)
    → s'.auth_begin_attempts ≡ s.auth_begin_attempts
    → s'.auth_finish_attempts ≡ s.auth_finish_attempts
    → WindowsBounded s
    → WindowsBounded s'
same_windows s s' e f w = record {
  begins_bounded = subst (Bounded max_auth_begin_attempts_per_window) (sym e) w.begins_bounded;
  finishes_bounded = subst (Bounded max_auth_finish_attempts_per_window) (sym f) w.finishes_bounded;
}

begin_limited-windows :
    (now : ℕ) (drawn_id drawn_nonce : Option Bytes) (request : AuthBeginRequest)
    (s : InMemoryServer)
    → WindowsBounded s
    → WindowsBounded (begin_limited now drawn_id drawn_nonce request s).1
unfolding begin_limited open_challenge
begin_limited-windows now drawn_id drawn_nonce request s w =
    same_windows
      (record s {
        auth_begin_attempts =
            (enforce_rate_limit s.auth_begin_attempts request.user_id now
              max_auth_begin_attempts_per_window auth_rate_window_seconds
              "auth begin rate limit exceeded").1;
      })
      _ (ground arith) (ground arith)
      (record {
        begins_bounded =
            enforce_rate_limit-Bounded now _ auth_rate_window_seconds _ request.user_id
              s.auth_begin_attempts w.begins_bounded;
        finishes_bounded = w.finishes_bounded;
      })

begin-windows :
    (now : ℕ) (drawn_id drawn_nonce : Option Bytes) (request : AuthBeginRequest)
    (s : InMemoryServer)
    → WindowsBounded s
    → WindowsBounded (begin_transport_authentication now drawn_id drawn_nonce request s).1
unfolding begin_transport_authentication
begin-windows now drawn_id drawn_nonce request s w = elim (Result-cases (check_begin request)) [
  | inl (text, h) ↦ rw (h, begin_transport_authentication) (cleanup-WindowsBounded now s w)
  | inr (_, h) ↦
      rw (h, begin_transport_authentication)
        (begin_limited-windows now drawn_id drawn_nonce request _ (cleanup-WindowsBounded now s w))
]

module _ (o : OpenSsl) where
  finish_limited-windows :
      (now : ℕ) (drawn : Option Bytes) (request : AuthFinishRequest) (s : InMemoryServer)
      → WindowsBounded s
      → WindowsBounded (finish_limited o now drawn request s).1
  unfolding finish_limited use_challenge open_session
  finish_limited-windows now drawn request s w =
      same_windows
        (record s {
          auth_finish_attempts =
              (enforce_rate_limit s.auth_finish_attempts request.user_id now
                max_auth_finish_attempts_per_window auth_rate_window_seconds
                "auth finish rate limit exceeded").1;
        })
        _ (ground arith) (ground arith)
        (record {
          begins_bounded = w.begins_bounded;
          finishes_bounded =
              enforce_rate_limit-Bounded now _ auth_rate_window_seconds _ request.user_id
                s.auth_finish_attempts w.finishes_bounded;
        })

  finish-windows :
      (now : ℕ) (drawn : Option Bytes) (request : AuthFinishRequest) (s : InMemoryServer)
      → WindowsBounded s
      → WindowsBounded (finish_transport_authentication o now drawn request s).1
  unfolding finish_transport_authentication
  finish-windows now drawn request s w = elim (Result-cases (check_finish request)) [
    | inl (text, h) ↦ rw (h, finish_transport_authentication) (cleanup-WindowsBounded now s w)
    | inr (_, h) ↦
        rw (h, finish_transport_authentication)
          (finish_limited-windows now drawn request _ (cleanup-WindowsBounded now s w))
  ]

  Step-windows : (s s' : InMemoryServer) → Step o s s' → WindowsBounded s → WindowsBounded s'
  unfolding register_transport_identity register_new register_existing authenticate_session_token
      revoke_session_token publish_bundle acquire_bundle_for_session enqueue_envelope drain_inbox
  Step-windows _ _ (registers request s) w = same_windows s _ (ground arith) (ground arith) w
  Step-windows _ _ (begins now drawn_id drawn_nonce request s) w =
      begin-windows now drawn_id drawn_nonce request s w
  Step-windows _ _ (finishes now drawn request s) w = finish-windows now drawn request s w
  Step-windows _ _ (authenticates now token s) w =
      same_windows (cleanup_auth_state now s) _ (ground arith) (ground arith)
        (cleanup-WindowsBounded now s w)
  Step-windows _ _ (revokes token s) w = same_windows s _ (ground arith) (ground arith) w
  Step-windows _ _ (publishes bundle s) w = same_windows s _ (ground arith) (ground arith) w
  Step-windows _ _ (acquires user s) w = same_windows s _ (ground arith) (ground arith) w
  Step-windows _ _ (enqueues user envelope s small) w = same_windows s _ refl refl w
  Step-windows _ _ (drains user ack s) w = same_windows s _ (ground arith) (ground arith) w

  -- In every run in which no user's inbox ids wrap, no user's window of either kind holds more than 30
  -- attempts.
  pub Reachable-WindowsBounded :
      (token : Bytes) (s : InMemoryServer) → Reachable o token s → WindowsBounded s
  unfolding new_server
  Reachable-WindowsBounded token _ starts = record {
    begins_bounded = λ user window e. cc;
    finishes_bounded = λ user window e. cc;
  }
  Reachable-WindowsBounded token _ (goes_on s s' r step) =
      Step-windows s s' step (Reachable-WindowsBounded token s r)
