-- ===== src/Protocol/Serialization/Requests.antt =====
-- The fields of the transport requests and responses, in the order of the Serialize and
-- Deserialize functions of src/protocol/serialization.cpp.
use pqchat.Protocol.Serialization.Reader.{
  Read, pure, read_bytes, read_optional_bytes, read_string, read_u64, ◌>>=◌,
}
use pqchat.Protocol.Serialization.Writer.{
  Write, write_bytes, write_optional_bytes, write_string, write_u64, ◌>>◌,
}
use pqchat.Protocol.TransportAuth.{
  AuthBeginRequest, AuthBeginResponse, AuthFinishRequest, AuthFinishResponse, AuthenticatedPayload,
  RegisterRequest,
}

unfoldable pub write_register_request : RegisterRequest → Write
write_register_request m = do
  write_string m.user_id
  write_bytes m.transport_auth_public_key
  write_string m.registration_token
  write_bytes m.proof_signature_mldsa65
  write_optional_bytes m.rotation_signature_mldsa65

unfoldable pub read_register_request : Read RegisterRequest
read_register_request = do
  user_id ← read_string
  transport_auth_public_key ← read_bytes
  registration_token ← read_string
  proof_signature_mldsa65 ← read_bytes
  rotation_signature_mldsa65 ← read_optional_bytes
  pure (record {
    user_id = user_id;
    transport_auth_public_key = transport_auth_public_key;
    registration_token = registration_token;
    proof_signature_mldsa65 = proof_signature_mldsa65;
    rotation_signature_mldsa65 = rotation_signature_mldsa65;
  })

unfoldable pub write_auth_begin_request : AuthBeginRequest → Write
write_auth_begin_request m = do write_string m.user_id; write_bytes m.client_nonce

unfoldable pub read_auth_begin_request : Read AuthBeginRequest
read_auth_begin_request = do
  user_id ← read_string
  client_nonce ← read_bytes
  pure (record { user_id = user_id; client_nonce = client_nonce })

unfoldable pub write_auth_begin_response : AuthBeginResponse → Write
write_auth_begin_response m = do
  write_string m.challenge_id
  write_bytes m.server_nonce
  write_u64 m.expires_at_unix

unfoldable pub read_auth_begin_response : Read AuthBeginResponse
read_auth_begin_response = do
  challenge_id ← read_string
  server_nonce ← read_bytes
  expires_at_unix ← read_u64
  pure (record {
    challenge_id = challenge_id;
    server_nonce = server_nonce;
    expires_at_unix = expires_at_unix;
  })

unfoldable pub write_auth_finish_request : AuthFinishRequest → Write
write_auth_finish_request m = do
  write_string m.user_id
  write_string m.challenge_id
  write_bytes m.client_nonce
  write_bytes m.server_nonce
  write_u64 m.expires_at_unix
  write_bytes m.signature_mldsa65

unfoldable pub read_auth_finish_request : Read AuthFinishRequest
read_auth_finish_request = do
  user_id ← read_string
  challenge_id ← read_string
  client_nonce ← read_bytes
  server_nonce ← read_bytes
  expires_at_unix ← read_u64
  signature_mldsa65 ← read_bytes
  pure (record {
    user_id = user_id;
    challenge_id = challenge_id;
    client_nonce = client_nonce;
    server_nonce = server_nonce;
    expires_at_unix = expires_at_unix;
    signature_mldsa65 = signature_mldsa65;
  })

unfoldable pub write_auth_finish_response : AuthFinishResponse → Write
write_auth_finish_response m = do write_bytes m.session_token; write_u64 m.expires_at_unix

unfoldable pub read_auth_finish_response : Read AuthFinishResponse
read_auth_finish_response = do
  session_token ← read_bytes
  expires_at_unix ← read_u64
  pure (record { session_token = session_token; expires_at_unix = expires_at_unix })

unfoldable pub write_authenticated_payload : AuthenticatedPayload → Write
write_authenticated_payload m = do write_bytes m.session_token; write_bytes m.payload

unfoldable pub read_authenticated_payload : Read AuthenticatedPayload
read_authenticated_payload = do
  session_token ← read_bytes
  payload ← read_bytes
  pure (record { session_token = session_token; payload = payload })
