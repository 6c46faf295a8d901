-- ===== src/Protocol/TransportAuth.antt =====
-- The requests and responses of include/pqchat/protocol/transport_auth.h.
use pqchat.Prelude.{Bytes, Option, ℕ}

pub record RegisterRequest : Type 0 where
  pub user_id : Bytes
  pub transport_auth_public_key : Bytes
  pub registration_token : Bytes
  pub proof_signature_mldsa65 : Bytes
  pub rotation_signature_mldsa65 : Option Bytes

pub record AuthBeginRequest : Type 0 where
  pub user_id : Bytes
  pub client_nonce : Bytes

pub record AuthBeginResponse : Type 0 where
  pub challenge_id : Bytes
  pub server_nonce : Bytes
  pub expires_at_unix : ℕ

pub record AuthFinishRequest : Type 0 where
  pub user_id : Bytes
  pub challenge_id : Bytes
  pub client_nonce : Bytes
  pub server_nonce : Bytes
  pub expires_at_unix : ℕ
  pub signature_mldsa65 : Bytes

pub record AuthFinishResponse : Type 0 where
  pub session_token : Bytes
  pub expires_at_unix : ℕ

pub record AuthenticatedPayload : Type 0 where
  pub session_token : Bytes
  pub payload : Bytes
