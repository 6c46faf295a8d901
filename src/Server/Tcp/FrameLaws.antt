-- ===== src/Server/Tcp/FrameLaws.antt =====
-- What a frame that is answered with kOk shows: HandleConnection of src/server/tcp_server.cpp.
use pqchat.Prelude.{Bytes, ap, ap₂, arith, false, inl, inr, refl, ℕ, ◌==◌, ◌∙◌, ◌≡◌}
use pqchat.Result.{Result, Result-cases, err, ok}
use pqchat.Server.Api.{ServerApi}
use pqchat.Server.Tcp.Dispatch.{
  Response, answer, drain_inbox_command, enqueue_envelope_command, handle_authenticated,
  publish_bundle_command,
}
use pqchat.Server.Tcp.DispatchLaws.{
  DrainAuthorised, EnqueueAuthorised, PublishAuthorised, may_drain, may_enqueue, may_publish,
}
use pqchat.Server.Tcp.Frames.{TcpState, handle_command, handle_frame, handle_with_session}
use pqchat.Server.Tcp.PreAuth.{
  PreAuthRateLimitConfig, auth_begin_command, auth_finish_command, enforce_pre_auth_rate_limit,
  register_command,
}

answer-ok :
    (outcome : Result Bytes) → (answer outcome).status ≡ 0 → outcome ≡ ok (answer outcome).payload
answer-ok (ok payload) e = refl
answer-ok (err text) e = absurd (omega (arith, e))

module _ {S : Type 0} (api : ServerApi S) (config : PreAuthRateLimitConfig) (now : ℕ)
    (peer_addr : Bytes) (payload : Bytes) (t t' : TcpState S) (response : Response) where
  -- A command that needs a session and was answered with kOk was handled for the session.
  frame_handled :
      (command : ℕ)
      → (command == register_command) ≡ false
      → (command == auth_begin_command) ≡ false
      → (command == auth_finish_command) ≡ false
      → handle_frame api config now peer_addr command payload t ≡ (response, t')
      → response.status ≡ 0
      → handle_authenticated api command payload t.server ≡ (ok response.payload, t'.server)
  unfolding handle_frame handle_command handle_with_session
  frame_handled command a b c e accepted =
      elim (Result-cases ((enforce_pre_auth_rate_limit config now peer_addr command t.windows).0)) [
        | inl (text, refused) ↦
            let error : response.status ≡ 1 = ground arith in
            absurd (omega (arith, error, accepted))
        | inr (_, allowed) ↦
            let replied : answer ((handle_authenticated api command payload t.server).0)
                ≡ response =
              ground arith in
            let left : (handle_authenticated api command payload t.server).1 ≡ t'.server =
              ground arith in
            let shown : (handle_authenticated api command payload t.server).0
                ≡ ok (answer ((handle_authenticated api command payload t.server).0)).payload =
              answer-ok ((handle_authenticated api command payload t.server).0)
                (ap (λ (r : Response). r.status) replied ∙ accepted) in
            ap₂ (λ a b. (a, b)) (shown ∙ ap (λ (r : Response). ok r.payload) replied) left
      ]

  -- A frame that asks to store an envelope is answered with kOk only if its token is accepted for
  -- the user whom the envelope names as sender, and the envelope was stored in the inbox of the
  -- recipient that it names.
  pub frame_may_enqueue :
      handle_frame api config now peer_addr enqueue_envelope_command payload t ≡ (response, t')
      → response.status ≡ 0
      → EnqueueAuthorised api payload t.server t'.server
  frame_may_enqueue e accepted =
      may_enqueue api payload t.server t'.server response.payload
        (frame_handled enqueue_envelope_command refl refl refl e accepted)

  -- A frame that asks to publish a bundle is answered with kOk only if its token is accepted for
  -- the user whom the bundle names, and the bundle was published.
  pub frame_may_publish :
      handle_frame api config now peer_addr publish_bundle_command payload t ≡ (response, t')
      → response.status ≡ 0
      → PublishAuthorised api payload t.server t'.server
  frame_may_publish e accepted =
      may_publish api payload t.server t'.server response.payload
        (frame_handled publish_bundle_command refl refl refl e accepted)

  -- A frame that asks to drain an inbox is answered with kOk only if its token is accepted for the
  -- owner of the inbox; the answer encodes what was drained from it.
  pub frame_may_drain :
      handle_frame api config now peer_addr drain_inbox_command payload t ≡ (response, t')
      → response.status ≡ 0
      → DrainAuthorised api payload t.server t'.server response.payload
  frame_may_drain e accepted =
      may_drain api payload t.server t'.server response.payload
        (frame_handled drain_inbox_command refl refl refl e accepted)
