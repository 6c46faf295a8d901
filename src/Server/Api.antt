-- ===== src/Server/Api.antt =====
-- IServerApi of include/pqchat/server/server_api.h: the operations of a server whose state is `S`, and
-- the in-memory server as one.
use pqchat.Crypto.{OpenSsl}
use pqchat.Prelude.{Bytes, List, Option, ℕ}
use pqchat.Protocol.Messages.{Envelope, InboxEnvelope}
use pqchat.Protocol.PrekeyBundle.{PrekeyBundle}
use pqchat.Protocol.TransportAuth.{
  AuthBeginRequest, AuthBeginResponse, AuthFinishRequest, AuthFinishResponse, RegisterRequest,
}
use pqchat.Result.{Result}
use pqchat.Server.InMemory.Bundles.{acquire_bundle_for_session, publish_bundle}
use pqchat.Server.InMemory.Inbox.{drain_inbox, enqueue_envelope}
use pqchat.Server.InMemory.Login.{begin_transport_authentication, finish_transport_authentication}
use pqchat.Server.InMemory.Registration.{register_transport_identity}
use pqchat.Server.InMemory.Sessions.{authenticate_session_token, revoke_session_token}
use pqchat.Server.InMemory.State.{InMemoryServer}

abbrev Call : Type 0 → Type 0 → Type 0
Call S A = S → Result A × S

pub record ServerApi (S : Type 0) : Type 0 where
  pub register_transport_identity : RegisterRequest → Call S (Unit {0})
  pub begin_transport_authentication : AuthBeginRequest → Call S AuthBeginResponse
  pub finish_transport_authentication : AuthFinishRequest → Call S AuthFinishResponse
  pub authenticate_session_token : Bytes → Call S Bytes
  pub revoke_session_token : Bytes → Call S (Unit {0})
  pub publish_bundle : PrekeyBundle → Call S (Unit {0})
  pub acquire_bundle_for_session : Bytes → Call S PrekeyBundle
  pub enqueue_envelope : Bytes → Envelope → Call S (Unit {0})
  pub drain_inbox : Bytes → Option ℕ → Call S (List InboxEnvelope)

-- The time and the drawn bytes of the calls that a frame makes.
pub record Surroundings : Type 0 where
  pub now : ℕ
  pub drawn_id : Option Bytes
  pub drawn_nonce : Option Bytes
  pub drawn_token : Option Bytes

abbrev pub in_memory_api : OpenSsl → Surroundings → ServerApi InMemoryServer
in_memory_api o around = record {
  register_transport_identity = register_transport_identity o;
  begin_transport_authentication =
      begin_transport_authentication around.now around.drawn_id around.drawn_nonce;
  finish_transport_authentication = finish_transport_authentication o around.now around.drawn_token;
  authenticate_session_token = authenticate_session_token around.now;
  revoke_session_token = revoke_session_token;
  publish_bundle = publish_bundle o;
  acquire_bundle_for_session = acquire_bundle_for_session;
  enqueue_envelope = enqueue_envelope;
  drain_inbox = drain_inbox;
}
