-- ===== src/Protocol/Serialization/FinishCodecs.antt =====
-- Codecs of the end of a login and of what is sent in its session.
use pqchat.Prelude.{Bytes, IsU64, refl, ◌++◌, ◌≡◌}
use pqchat.Protocol.Serialization.Codec.{
  Codec, Decodes, Decodes-field, Decodes-last, Reads, Reads-field, Reads-last, Writes-field,
}
use pqchat.Protocol.Serialization.Fields.{
  BytesFit, StringFits, bytes_codec, bytes_text, string_codec,
}
use pqchat.Protocol.Serialization.Requests.{
  read_auth_finish_request, read_auth_finish_response, read_authenticated_payload,
  write_auth_finish_request, write_auth_finish_response, write_authenticated_payload,
}
use pqchat.Protocol.Serialization.Words64.{IsU64-codec}
use pqchat.Protocol.Serialization.Writer.{Writes, u64_text}
use pqchat.Protocol.TransportAuth.{AuthFinishRequest, AuthFinishResponse, AuthenticatedPayload}

pub record AuthFinishRequestFits (m : AuthFinishRequest) : Type 0 where
  pub user_id : StringFits m.user_id
  pub challenge_id : StringFits m.challenge_id
  pub client_nonce : BytesFit m.client_nonce
  pub server_nonce : BytesFit m.server_nonce
  pub expires_at_unix : IsU64 m.expires_at_unix
  pub signature_mldsa65 : BytesFit m.signature_mldsa65

unfoldable pub auth_finish_request_text : AuthFinishRequest → Bytes
auth_finish_request_text m =
    bytes_text m.user_id
    ++ (bytes_text m.challenge_id
        ++ (bytes_text m.client_nonce
            ++ (bytes_text m.server_nonce
                ++ (u64_text m.expires_at_unix ++ (bytes_text m.signature_mldsa65)))))

auth_finish_request-Writes :
    (m : AuthFinishRequest) → Writes (write_auth_finish_request m) (auth_finish_request_text m)
unfolding write_auth_finish_request auth_finish_request_text
auth_finish_request-Writes m = Writes-field string_codec m.user_id _ (
    Writes-field string_codec m.challenge_id _ (
      Writes-field bytes_codec m.client_nonce _ (
        Writes-field bytes_codec m.server_nonce _
          (Writes-field IsU64-codec m.expires_at_unix _ (bytes_codec.writes m.signature_mldsa65)))))

auth_finish_request-Reads :
    (m : AuthFinishRequest)
    → AuthFinishRequestFits m
    → Reads read_auth_finish_request (auth_finish_request_text m) m
unfolding read_auth_finish_request auth_finish_request_text
auth_finish_request-Reads m h = Reads-field string_codec _ m.user_id _ m h.user_id (
    Reads-field string_codec _ m.challenge_id _ m h.challenge_id (
      Reads-field bytes_codec _ m.client_nonce _ m h.client_nonce (
        Reads-field bytes_codec _ m.server_nonce _ m h.server_nonce (
          Reads-field IsU64-codec _ m.expires_at_unix _ m h.expires_at_unix
            (Reads-last bytes_codec _ m.signature_mldsa65 h.signature_mldsa65)))))

auth_finish_request_decodes :
    Decodes read_auth_finish_request
      (λ xs m. (xs ≡ auth_finish_request_text m) × AuthFinishRequestFits m)
unfolding read_auth_finish_request auth_finish_request_text
auth_finish_request_decodes = Decodes-field string_codec _ _ λ v0 h0.
    Decodes-field string_codec _ _ λ v1 h1. Decodes-field bytes_codec _ _ λ v2 h2.
      Decodes-field bytes_codec _ _ λ v3 h3. Decodes-field IsU64-codec _ _ λ v4 h4.
        Decodes-last bytes_codec _ _ λ v5 h5. (
          refl,
          record {
            user_id = h0;
            challenge_id = h1;
            client_nonce = h2;
            server_nonce = h3;
            expires_at_unix = h4;
            signature_mldsa65 = h5;
          },
        )

pub auth_finish_request_codec :
    Codec write_auth_finish_request read_auth_finish_request auth_finish_request_text
      AuthFinishRequestFits
auth_finish_request_codec = record {
  writes = auth_finish_request-Writes;
  parses = record { reads = auth_finish_request-Reads; decodes = auth_finish_request_decodes };
}

pub record AuthFinishResponseFits (m : AuthFinishResponse) : Type 0 where
  pub session_token : BytesFit m.session_token
  pub expires_at_unix : IsU64 m.expires_at_unix

unfoldable pub auth_finish_response_text : AuthFinishResponse → Bytes
auth_finish_response_text m = bytes_text m.session_token ++ (u64_text m.expires_at_unix)

auth_finish_response-Writes :
    (m : AuthFinishResponse) → Writes (write_auth_finish_response m) (auth_finish_response_text m)
unfolding write_auth_finish_response auth_finish_response_text
auth_finish_response-Writes m =
    Writes-field bytes_codec m.session_token _ (IsU64-codec.writes m.expires_at_unix)

auth_finish_response-Reads :
    (m : AuthFinishResponse)
    → AuthFinishResponseFits m
    → Reads read_auth_finish_response (auth_finish_response_text m) m
unfolding read_auth_finish_response auth_finish_response_text
auth_finish_response-Reads m h =
    Reads-field bytes_codec _ m.session_token _ m h.session_token
      (Reads-last IsU64-codec _ m.expires_at_unix h.expires_at_unix)

auth_finish_response_decodes :
    Decodes read_auth_finish_response
      (λ xs m. (xs ≡ auth_finish_response_text m) × AuthFinishResponseFits m)
unfolding read_auth_finish_response auth_finish_response_text
auth_finish_response_decodes = Decodes-field bytes_codec _ _ λ v0 h0.
    Decodes-last IsU64-codec _ _
      λ v1 h1. (refl, record { session_token = h0; expires_at_unix = h1 })

pub auth_finish_response_codec :
    Codec write_auth_finish_response read_auth_finish_response auth_finish_response_text
      AuthFinishResponseFits
auth_finish_response_codec = record {
  writes = auth_finish_response-Writes;
  parses = record { reads = auth_finish_response-Reads; decodes = auth_finish_response_decodes };
}

pub record AuthenticatedPayloadFits (m : AuthenticatedPayload) : Type 0 where
  pub session_token : BytesFit m.session_token
  pub payload : BytesFit m.payload

unfoldable pub authenticated_payload_text : AuthenticatedPayload → Bytes
authenticated_payload_text m = bytes_text m.session_token ++ (bytes_text m.payload)

authenticated_payload-Writes :
    (m : AuthenticatedPayload)
    → Writes (write_authenticated_payload m) (authenticated_payload_text m)
unfolding write_authenticated_payload authenticated_payload_text
authenticated_payload-Writes m =
    Writes-field bytes_codec m.session_token _ (bytes_codec.writes m.payload)

authenticated_payload-Reads :
    (m : AuthenticatedPayload)
    → AuthenticatedPayloadFits m
    → Reads read_authenticated_payload (authenticated_payload_text m) m
unfolding read_authenticated_payload authenticated_payload_text
authenticated_payload-Reads m h =
    Reads-field bytes_codec _ m.session_token _ m h.session_token
      (Reads-last bytes_codec _ m.payload h.payload)

authenticated_payload_decodes :
    Decodes read_authenticated_payload
      (λ xs m. (xs ≡ authenticated_payload_text m) × AuthenticatedPayloadFits m)
unfolding read_authenticated_payload authenticated_payload_text
authenticated_payload_decodes = Decodes-field bytes_codec _ _ λ v0 h0.
    Decodes-last bytes_codec _ _ λ v1 h1. (refl, record { session_token = h0; payload = h1 })

pub authenticated_payload_codec :
    Codec write_authenticated_payload read_authenticated_payload authenticated_payload_text
      AuthenticatedPayloadFits
authenticated_payload_codec = record {
  writes = authenticated_payload-Writes;
  parses = record { reads = authenticated_payload-Reads; decodes = authenticated_payload_decodes };
}
