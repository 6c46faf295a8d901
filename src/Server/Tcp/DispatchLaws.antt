-- ===== src/Server/Tcp/DispatchLaws.antt =====
-- Who may do what: HandleConnection of src/server/tcp_server.cpp, over any server.
use pqchat.Prelude.{
  Bool-cases, Bytes, List, Option-cases, ap, ap₂, arith, bytes_eq, bytes_eq_sound, inl, inr, some,
  true, ℕ, ◌∙◌, ◌≡◌,
}
use pqchat.Protocol.Messages.{InboxEnvelope}
use pqchat.Protocol.PrekeyBundle.{PrekeyBundle}
use pqchat.Protocol.Serialization.Envelopes.{serialize_inbox_envelope_vector}
use pqchat.Protocol.Serialization.InboxFields.{DrainInboxRequest}
use pqchat.Protocol.Serialization.InboxRequests.{
  EnqueueRequest, deserialize_drain_inbox_request, deserialize_enqueue_request,
}
use pqchat.Protocol.Serialization.Payloads.{
  deserialize_authenticated_payload, deserialize_prekey_bundle,
}
use pqchat.Protocol.TransportAuth.{AuthenticatedPayload}
use pqchat.Result.{Result, Result-cases, err, ok}
use pqchat.Server.Api.{ServerApi}
use pqchat.Server.Tcp.Dispatch.{
  check_parties, drain_inbox_command, enqueue_envelope_command, handle_authenticated,
  handle_drain_inbox, handle_enqueue_envelope, handle_publish_bundle, handle_session_command,
  parties, publish_bundle_command, then_empty, then_encode,
}

module _ {S : Type 0} (api : ServerApi S) (payload : Bytes) (s after : S) where
  -- The frame carries a token that the server accepts for `user`.
  pub record SessionOf (user : Bytes) : Type 0 where
    pub authenticated : AuthenticatedPayload
    pub decoded : deserialize_authenticated_payload payload ≡ ok authenticated
    pub accepted : (api.authenticate_session_token authenticated.session_token s).0 ≡ ok user

  -- The state in which the command itself is handled.
  abbrev after_check : Bytes → S
  after_check session_token = (api.authenticate_session_token session_token s).1

  handle_authenticated-ok :
      (command : ℕ) (out : Bytes)
      → handle_authenticated api command payload s ≡ (ok out, after)
      → (user : Bytes) × (session : SessionOf user) × (handle_session_command api command user
            session.authenticated
            (after_check session.authenticated.session_token)
          ≡ (ok out, after))
  unfolding handle_authenticated
  handle_authenticated-ok command out e =
      elim (Result-cases (deserialize_authenticated_payload payload)) [
        | inl (text, bad) ↦ absurd (ground arith)
        | inr (authenticated, decoded) ↦
            elim (Result-cases ((api.authenticate_session_token authenticated.session_token s).0)) [
              | inl (text, refused) ↦ absurd (ground arith)
              | inr (user, accepted) ↦ (
                user,
                record { authenticated = authenticated; decoded = decoded; accepted = accepted },
                ground arith,
              )
            ]
      ]

  -- An envelope was stored: its sender is the session's user, its recipient the owner of the inbox.
  pub record EnqueueAuthorised : Type 0 where
    pub user : Bytes
    pub session : SessionOf user
    pub request : EnqueueRequest
    pub decoded : deserialize_enqueue_request session.authenticated.payload ≡ ok request
    pub named : parties request.envelope ≡ some (user, request.user_id)
    pub stored :
        api.enqueue_envelope request.user_id request.envelope
          (after_check session.authenticated.session_token)
        ≡ (ok tt, after)

  -- A bundle was published: it names the session's user.
  pub record PublishAuthorised : Type 0 where
    pub user : Bytes
    pub session : SessionOf user
    pub bundle : PrekeyBundle
    pub decoded : deserialize_prekey_bundle session.authenticated.payload ≡ ok bundle
    pub named : bundle.user_id ≡ user
    pub published :
        api.publish_bundle bundle (after_check session.authenticated.session_token) ≡ (ok tt, after)

  -- An inbox was drained: it is the session's user's, and the answer holds what was drained.
  pub record DrainAuthorised (out : Bytes) : Type 0 where
    pub user : Bytes
    pub session : SessionOf user
    pub request : DrainInboxRequest
    pub decoded : deserialize_drain_inbox_request session.authenticated.payload ≡ ok request
    pub named : request.user_id ≡ user
    pub items : List InboxEnvelope
    pub drained :
        api.drain_inbox user request.ack_up_to_inbox_id
          (after_check session.authenticated.session_token)
        ≡ (ok items, after)
    pub encoded : serialize_inbox_envelope_vector items ≡ ok out

check_parties-ok :
    (user : Bytes) (request : EnqueueRequest)
    → check_parties user request ≡ ok tt
    → parties request.envelope ≡ some (user, request.user_id)
unfolding check_parties
check_parties-ok user request e = elim (Option-cases (parties request.envelope)) [
  | inl nobody ↦ absurd (ground arith)
  | inr ((sender, recipient), found) ↦
      let from : bytes_eq sender user ≡ true = ground arith in
      let to : bytes_eq recipient request.user_id ≡ true = ground arith in
      found
      ∙ ap₂ (λ a b. some (a, b)) (bytes_eq_sound sender user from)
          (bytes_eq_sound recipient request.user_id to)
]

then_empty-ok :
    {S : Type 0} (r : Result (Unit {0}) × S) (out : Bytes) (after : S)
    → then_empty r ≡ (ok out, after)
    → r ≡ (ok tt, after)
then_empty-ok (ok _, s) out after e = ap (λ p. (ok tt, p.1)) e
then_empty-ok (err text, s) out after e = cc

then_encode-ok :
    {S A : Type 0} (encode : A → Result Bytes) (r : Result A × S) (out : Bytes) (after : S)
    → then_encode encode r ≡ (ok out, after)
    → (a : A) × (r ≡ (ok a, after)) × (encode a ≡ ok out)
then_encode-ok encode (ok a, s) out after e = (a, ap (λ p. (ok a, p.1)) e, ap (λ p. p.0) e)
then_encode-ok encode (err text, s) out after e = cc

module _ {S : Type 0} (api : ServerApi S) (payload : Bytes) (s after : S) (out : Bytes) where
  pub may_enqueue :
      handle_authenticated api enqueue_envelope_command payload s ≡ (ok out, after)
      → EnqueueAuthorised api payload s after
  unfolding handle_session_command handle_enqueue_envelope
  may_enqueue e =
      let (user, session, handled) =
        handle_authenticated-ok api payload s after enqueue_envelope_command out e in
      elim (Result-cases (deserialize_enqueue_request session.authenticated.payload)) [
        | inl (text, bad) ↦ absurd (ground arith)
        | inr (request, decoded) ↦ elim (Result-cases (check_parties user request)) [
          | inl (text, refused) ↦ absurd (ground arith)
          | inr (_, allowed) ↦ record {
            user = user;
            session = session;
            request = request;
            decoded = decoded;
            named = check_parties-ok user request allowed;
            stored = then_empty-ok _ out after (ground arith);
          }
        ]
      ]

  pub may_publish :
      handle_authenticated api publish_bundle_command payload s ≡ (ok out, after)
      → PublishAuthorised api payload s after
  unfolding handle_session_command handle_publish_bundle
  may_publish e =
      let (user, session, handled) =
        handle_authenticated-ok api payload s after publish_bundle_command out e in
      elim (Result-cases (deserialize_prekey_bundle session.authenticated.payload)) [
        | inl (text, bad) ↦ absurd (ground arith)
        | inr (bundle, decoded) ↦ elim (Bool-cases (bytes_eq bundle.user_id user)) [
          | inr refused ↦ absurd (ground arith)
          | inl allowed ↦ record {
            user = user;
            session = session;
            bundle = bundle;
            decoded = decoded;
            named = bytes_eq_sound bundle.user_id user allowed;
            published = then_empty-ok _ out after (ground arith);
          }
        ]
      ]

  pub may_drain :
      handle_authenticated api drain_inbox_command payload s ≡ (ok out, after)
      → DrainAuthorised api payload s after out
  unfolding handle_session_command handle_drain_inbox
  may_drain e =
      let (user, session, handled) =
        handle_authenticated-ok api payload s after drain_inbox_command out e in
      elim (Result-cases (deserialize_drain_inbox_request session.authenticated.payload)) [
        | inl (text, bad) ↦ absurd (ground arith)
        | inr (request, decoded) ↦ elim (Bool-cases (bytes_eq request.user_id user)) [
          | inr refused ↦ absurd (ground arith)
          | inl allowed ↦
              let (items, drained, encoded) =
                then_encode-ok serialize_inbox_envelope_vector
                  (api.drain_inbox user request.ack_up_to_inbox_id
                    (after_check api payload s after session.authenticated.session_token))
                  out after (ground arith) in
              record {
                user = user;
                session = session;
                request = request;
                decoded = decoded;
                named = bytes_eq_sound request.user_id user allowed;
                items = items;
                drained = drained;
                encoded = encoded;
              }
        ]
      ]
