-- ===== src/Server/InMemory/Reachable.antt =====
-- The runs of the server: any sequence of calls, at any times and with any drawn bytes, from the state
-- that the constructor makes. The mutex of src/server/in_memory_server.cpp orders the calls.
use pqchat.Crypto.{OpenSsl}
use pqchat.Prelude.{Bytes, Option, arith, ℕ, ◌+◌, ◌<◌, ◌^◌, ◌≡◌}
use pqchat.Protocol.Messages.{Envelope}
use pqchat.Protocol.PrekeyBundle.{PrekeyBundle}
use pqchat.Protocol.TransportAuth.{AuthBeginRequest, AuthFinishRequest, RegisterRequest}
use pqchat.Server.InMemory.Bundles.{acquire_bundle_for_session, publish_bundle}
use pqchat.Server.InMemory.Inbox.{drain_inbox, enqueue_envelope}
use pqchat.Server.InMemory.Login.{
  begin_limited, begin_transport_authentication, finish_limited, finish_transport_authentication,
  open_challenge, open_session, use_challenge,
}
use pqchat.Server.InMemory.RateLimit.{cleanup_auth_state}
use pqchat.Server.InMemory.Registration.{
  register_existing, register_new, register_transport_identity,
}
use pqchat.Server.InMemory.Sessions.{authenticate_session_token, revoke_session_token}
use pqchat.Server.InMemory.State.{InMemoryServer, new_server, value_or}

pub data Step (o : OpenSsl) : InMemoryServer → InMemoryServer → Type 0 where
  registers :
      (request : RegisterRequest) (s : InMemoryServer)
      → Step o s (register_transport_identity o request s).1
  begins :
      (now : ℕ) (drawn_id drawn_nonce : Option Bytes) (request : AuthBeginRequest)
      (s : InMemoryServer)
      → Step o s (begin_transport_authentication now drawn_id drawn_nonce request s).1
  finishes :
      (now : ℕ) (drawn : Option Bytes) (request : AuthFinishRequest) (s : InMemoryServer)
      → Step o s (finish_transport_authentication o now drawn request s).1
  authenticates :
      (now : ℕ) (token : Bytes) (s : InMemoryServer)
      → Step o s (authenticate_session_token now token s).1
  revokes : (token : Bytes) (s : InMemoryServer) → Step o s (revoke_session_token token s).1
  publishes : (bundle : PrekeyBundle) (s : InMemoryServer) → Step o s (publish_bundle o bundle s).1
  acquires : (user : Bytes) (s : InMemoryServer) → Step o s (acquire_bundle_for_session user s).1
  -- A user's inbox ids start at 1: 2^64 - 1 messages are enqueued before they wrap.
  enqueues :
      (user : Bytes) (envelope : Envelope) (s : InMemoryServer)
      → value_or 0 (s.next_inbox_id_by_user user) + 1 < 2 ^ 64
      → Step o s (enqueue_envelope user envelope s).1
  drains :
      (user : Bytes) (ack : Option ℕ) (s : InMemoryServer) → Step o s (drain_inbox user ack s).1

pub data Reachable (o : OpenSsl) (token : Bytes) : InMemoryServer → Type 0 where
  starts : Reachable o token (new_server token)
  goes_on : (s s' : InMemoryServer) → Reachable o token s → Step o s s' → Reachable o token s'

-- What a call that does not concern bundles or inboxes keeps.
pub record StoreKept (s s' : InMemoryServer) : Type 0 where
  pub bundles : s'.bundles ≡ s.bundles
  pub inbox : s'.inbox ≡ s.inbox
  pub next : s'.next_inbox_id_by_user ≡ s.next_inbox_id_by_user

module _ (o : OpenSsl) where
  pub finish-StoreKept :
      (now : ℕ) (drawn : Option Bytes) (request : AuthFinishRequest) (s : InMemoryServer)
      → StoreKept s (finish_transport_authentication o now drawn request s).1
  unfolding finish_transport_authentication finish_limited use_challenge open_session
      cleanup_auth_state
  finish-StoreKept now drawn request s = record {
    bundles = ground arith;
    inbox = ground arith;
    next = ground arith;
  }

  pub register-StoreKept :
      (request : RegisterRequest) (s : InMemoryServer)
      → StoreKept s (register_transport_identity o request s).1
  unfolding register_transport_identity register_new register_existing
  register-StoreKept request s = record {
    bundles = ground arith;
    inbox = ground arith;
    next = ground arith;
  }

pub begin-StoreKept :
    (now : ℕ) (drawn_id drawn_nonce : Option Bytes) (request : AuthBeginRequest)
    (s : InMemoryServer)
    → StoreKept s (begin_transport_authentication now drawn_id drawn_nonce request s).1
unfolding begin_transport_authentication begin_limited open_challenge cleanup_auth_state
begin-StoreKept now drawn_id drawn_nonce request s = record {
  bundles = ground arith;
  inbox = ground arith;
  next = ground arith;
}

pub authenticate-StoreKept :
    (now : ℕ) (token : Bytes) (s : InMemoryServer)
    → StoreKept s (authenticate_session_token now token s).1
unfolding authenticate_session_token cleanup_auth_state
authenticate-StoreKept now token s = record {
  bundles = ground arith;
  inbox = ground arith;
  next = ground arith;
}

pub revoke-StoreKept :
    (token : Bytes) (s : InMemoryServer) → StoreKept s (revoke_session_token token s).1
unfolding revoke_session_token
revoke-StoreKept token s = record {
  bundles = ground arith;
  inbox = ground arith;
  next = ground arith;
}
