-- ===== src/Server/Tcp/Frames.antt =====
-- One round of the loop of HandleConnection in src/server/tcp_server.cpp: the windows, the commands that
-- need no session, and the others.
use pqchat.Prelude.{Bytes, if◌then◌else◌, ℕ, ◌==◌}
use pqchat.Protocol.Serialization.Payloads.{
  deserialize_auth_begin_request, deserialize_auth_finish_request, deserialize_register_request,
  serialize_auth_begin_response, serialize_auth_finish_response,
}
use pqchat.Protocol.Serialization.Whole.{outcome}
use pqchat.Result.{Result, err, ok}
use pqchat.Server.Api.{ServerApi}
use pqchat.Server.Tcp.Dispatch.{Response, answer, handle_authenticated, then_empty, then_encode}
use pqchat.Server.Tcp.PreAuth.{
  PreAuthRateLimitConfig, PreAuthState, auth_begin_command, auth_finish_command,
  enforce_pre_auth_rate_limit, enforce_pre_auth_user_rate_limit, register_command,
}

pub record TcpState (S : Type 0) : Type 0 where
  pub windows : PreAuthState
  pub server : S

module _ {S : Type 0} (api : ServerApi S) (config : PreAuthRateLimitConfig) (now : ℕ)
    (peer_addr : Bytes) where
  -- `EnforcePreAuthUserRateLimit`, then the call of the server where it lets the request through.
  unfoldable pub limited :
      ℕ → Bytes → (S → Result Bytes × S) → TcpState S → Result Bytes × TcpState S
  limited command user_id call t =
      let (limit, windows) =
        enforce_pre_auth_user_rate_limit config now peer_addr command user_id t.windows in
      elim limit [
        | err text ↦ (err text, record t { windows = windows })
        | ok _ ↦
            let (outcome, server) = call t.server in
            (outcome, record { windows = windows; server = server })
      ]

  unfoldable pub handle_register : Bytes → TcpState S → Result Bytes × TcpState S
  handle_register payload t = elim (deserialize_register_request payload) [
    | err text ↦ (err text, t)
    | ok request ↦
        limited register_command request.user_id
          (λ s. then_empty (api.register_transport_identity request s)) t
  ]

  unfoldable pub handle_auth_begin : Bytes → TcpState S → Result Bytes × TcpState S
  handle_auth_begin payload t = elim (deserialize_auth_begin_request payload) [
    | err text ↦ (err text, t)
    | ok request ↦
        limited auth_begin_command request.user_id
          (λ s.
            then_encode serialize_auth_begin_response
              (api.begin_transport_authentication request s))
          t
  ]

  unfoldable pub handle_auth_finish : Bytes → TcpState S → Result Bytes × TcpState S
  handle_auth_finish payload t = elim (deserialize_auth_finish_request payload) [
    | err text ↦ (err text, t)
    | ok request ↦
        limited auth_finish_command request.user_id
          (λ s.
            then_encode serialize_auth_finish_response
              (api.finish_transport_authentication request s))
          t
  ]

  unfoldable pub handle_with_session : ℕ → Bytes → TcpState S → Result Bytes × TcpState S
  handle_with_session command payload t =
      let (outcome, server) = handle_authenticated api command payload t.server in
      (outcome, record t { server = server })

  unfoldable pub handle_command : ℕ → Bytes → TcpState S → Result Bytes × TcpState S
  handle_command command payload t =
      if command == register_command
      then handle_register payload t
      else if command == auth_begin_command
      then handle_auth_begin payload t
      else if command == auth_finish_command
      then handle_auth_finish payload t
      else handle_with_session command payload t

  unfoldable pub handle_frame : ℕ → Bytes → TcpState S → Response × TcpState S
  handle_frame command payload t =
      let (limit, windows) = enforce_pre_auth_rate_limit config now peer_addr command t.windows in
      let charged = record t { windows = windows } in
      elim limit [
        | err text ↦ (answer (err text), charged)
        | ok _ ↦ let (outcome, t') = handle_command command payload charged in (answer outcome, t')
      ]
