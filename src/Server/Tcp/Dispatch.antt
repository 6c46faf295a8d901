-- ===== src/Server/Tcp/Dispatch.antt =====
-- HandleConnection of src/server/tcp_server.cpp: the answer to one frame that was read. The TLS and the
-- plain branch write the same frame. `send_error(text); continue` leaves the error, and a frame with
-- kOk its payload.
use pqchat.Crypto.{check, non_null}
use pqchat.Prelude.{Bytes, Option, [], bytes_eq, codes, if◌then◌else◌, none, some, ℕ, ◌==◌}
use pqchat.Protocol.Messages.{Envelope, chat_kind, initial_kind}
use pqchat.Protocol.Serialization.Envelopes.{serialize_inbox_envelope_vector}
use pqchat.Protocol.Serialization.InboxRequests.{
  EnqueueRequest, deserialize_drain_inbox_request, deserialize_enqueue_request,
}
use pqchat.Protocol.Serialization.Payloads.{
  deserialize_authenticated_payload, deserialize_prekey_bundle, deserialize_string,
  serialize_prekey_bundle, serialize_string,
}
use pqchat.Protocol.TransportAuth.{AuthenticatedPayload}
use pqchat.Result.{Result, err, ok, ◌>>=◌}
use pqchat.Server.Api.{ServerApi}
use pqchat.Server.InMemory.Sessions.{session_user}

abbrev pub publish_bundle_command : ℕ
publish_bundle_command = 1

abbrev acquire_bundle_command : ℕ
acquire_bundle_command = 2

abbrev pub enqueue_envelope_command : ℕ
enqueue_envelope_command = 3

abbrev pub drain_inbox_command : ℕ
drain_inbox_command = 4

abbrev logout_command : ℕ
logout_command = 8

-- The status and the payload of the frame that is written.
pub record Response : Type 0 where
  pub status : ℕ
  pub payload : Bytes

-- `err_payload.ok() ? err_payload.value() : {}`
abbrev payload_or_none : Result Bytes → Bytes
payload_or_none (ok bytes) = bytes
payload_or_none (err text) = []

abbrev pub answer : Result Bytes → Response
answer (ok payload) = record { status = 0; payload = payload }
answer (err text) = record { status = 1; payload = payload_or_none (serialize_string (codes text)) }

module _ {S : Type 0} where
  -- `if (!status.ok()) …`, then an empty payload
  abbrev pub then_empty : Result (Unit {0}) × S → Result Bytes × S
  then_empty (ok _, s) = (ok [], s)
  then_empty (err text, s) = (err text, s)

  -- `if (!response.ok()) …`, then its encoding
  abbrev pub then_encode : {A : Type 0} → (A → Result Bytes) → Result A × S → Result Bytes × S
  then_encode encode (ok a, s) = (encode a, s)
  then_encode encode (err text, s) = (err text, s)

-- The sender and the recipient that the envelope's message names.
unfoldable pub parties : Envelope → Option (Bytes × Bytes)
parties envelope = elim envelope.kind [
  | initial_kind ↦ elim envelope.initial [
    | none ↦ none
    | some message ↦ some (message.from_user, message.to_user)
  ]
  | chat_kind ↦ elim envelope.chat [
    | none ↦ none
    | some message ↦ some (message.from_user, message.to_user)
  ]
]

-- Whether the session's user may enqueue it.
unfoldable pub check_parties : Bytes → EnqueueRequest → Result (Unit {0})
check_parties session_user request = do
  (sender, recipient) ← non_null (parties request.envelope) "invalid envelope sender"
  _ ← check (bytes_eq sender session_user) "envelope sender mismatch with authenticated session"
  check (bytes_eq recipient request.user_id) "envelope recipient mismatch with enqueue target"

module _ {S : Type 0} (api : ServerApi S) where
  unfoldable pub handle_logout : Bytes → S → Result Bytes × S
  handle_logout session_token s = then_empty (api.revoke_session_token session_token s)

  unfoldable pub handle_publish_bundle : Bytes → Bytes → S → Result Bytes × S
  handle_publish_bundle session_user inner_payload s =
      elim (deserialize_prekey_bundle inner_payload) [
        | err text ↦ (err text, s)
        | ok bundle ↦
            if bytes_eq bundle.user_id session_user
            then then_empty (api.publish_bundle bundle s)
            else (err "publish user_id mismatch with authenticated session", s)
      ]

  unfoldable pub handle_acquire_bundle : Bytes → S → Result Bytes × S
  handle_acquire_bundle inner_payload s = elim (deserialize_string inner_payload) [
    | err text ↦ (err text, s)
    | ok user ↦ then_encode serialize_prekey_bundle (api.acquire_bundle_for_session user s)
  ]

  unfoldable pub handle_enqueue_envelope : Bytes → Bytes → S → Result Bytes × S
  handle_enqueue_envelope session_user inner_payload s =
      elim (deserialize_enqueue_request inner_payload) [
        | err text ↦ (err text, s)
        | ok request ↦ elim (check_parties session_user request) [
          | err text ↦ (err text, s)
          | ok _ ↦ then_empty (api.enqueue_envelope request.user_id request.envelope s)
        ]
      ]

  unfoldable pub handle_drain_inbox : Bytes → Bytes → S → Result Bytes × S
  handle_drain_inbox session_user inner_payload s =
      elim (deserialize_drain_inbox_request inner_payload) [
        | err text ↦ (err text, s)
        | ok request ↦
            if bytes_eq request.user_id session_user
            then then_encode serialize_inbox_envelope_vector
                (api.drain_inbox session_user request.ack_up_to_inbox_id s)
            else (err "drain user_id mismatch with authenticated session", s)
      ]

  unfoldable pub handle_session_command : ℕ → Bytes → AuthenticatedPayload → S → Result Bytes × S
  handle_session_command command session_user authenticated s =
      if command == logout_command
      then handle_logout authenticated.session_token s
      else if command == publish_bundle_command
      then handle_publish_bundle session_user authenticated.payload s
      else if command == acquire_bundle_command
      then handle_acquire_bundle authenticated.payload s
      else if command == enqueue_envelope_command
      then handle_enqueue_envelope session_user authenticated.payload s
      else if command == drain_inbox_command
      then handle_drain_inbox session_user authenticated.payload s
      else (err "unknown command", s)

  -- Every command but the three that need no session.
  unfoldable pub handle_authenticated : ℕ → Bytes → S → Result Bytes × S
  handle_authenticated command payload s = elim (deserialize_authenticated_payload payload) [
    | err text ↦ (err text, s)
    | ok authenticated ↦
        let (session_user, s') = api.authenticate_session_token authenticated.session_token s in
        elim session_user [
          | err text ↦ (err text, s')
          | ok user ↦ handle_session_command command user authenticated s'
        ]
  ]
