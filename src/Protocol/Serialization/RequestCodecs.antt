-- ===== src/Protocol/Serialization/RequestCodecs.antt =====
-- Codecs of the transport requests and responses.
use pqchat.Prelude.{Bytes, IsU64, refl, ◌++◌, ◌≡◌}
use pqchat.Protocol.Serialization.Codec.{
  Codec, Decodes, Decodes-field, Decodes-last, Reads, Reads-field, Reads-last, Writes-field,
}
use pqchat.Protocol.Serialization.Fields.{
  BytesFit, OptionalFits, StringFits, bytes_codec, bytes_text, optional_bytes_codec, optional_text,
  string_codec,
}
use pqchat.Protocol.Serialization.Requests.{
  read_auth_begin_request, read_auth_begin_response, read_register_request,
  write_auth_begin_request, write_auth_begin_response, write_register_request,
}
use pqchat.Protocol.Serialization.Words64.{IsU64-codec}
use pqchat.Protocol.Serialization.Writer.{Writes, u64_text}
use pqchat.Protocol.TransportAuth.{AuthBeginRequest, AuthBeginResponse, RegisterRequest}

pub record RegisterRequestFits (m : RegisterRequest) : Type 0 where
  pub user_id : StringFits m.user_id
  pub transport_auth_public_key : BytesFit m.transport_auth_public_key
  pub registration_token : StringFits m.registration_token
  pub proof_signature_mldsa65 : BytesFit m.proof_signature_mldsa65
  pub rotation_signature_mldsa65 : OptionalFits BytesFit m.rotation_signature_mldsa65

unfoldable pub register_request_text : RegisterRequest → Bytes
register_request_text m =
    bytes_text m.user_id
    ++ (bytes_text m.transport_auth_public_key
        ++ (bytes_text m.registration_token
            ++ (bytes_text m.proof_signature_mldsa65
                ++ (optional_text bytes_text m.rotation_signature_mldsa65))))

register_request-Writes :
    (m : RegisterRequest) → Writes (write_register_request m) (register_request_text m)
unfolding write_register_request register_request_text
register_request-Writes m = Writes-field string_codec m.user_id _ (
    Writes-field bytes_codec m.transport_auth_public_key _ (
      Writes-field string_codec m.registration_token _ (
        Writes-field bytes_codec m.proof_signature_mldsa65 _
          (optional_bytes_codec.writes m.rotation_signature_mldsa65))))

register_request-Reads :
    (m : RegisterRequest)
    → RegisterRequestFits m
    → Reads read_register_request (register_request_text m) m
unfolding read_register_request register_request_text
register_request-Reads m h = Reads-field string_codec _ m.user_id _ m h.user_id (
    Reads-field bytes_codec _ m.transport_auth_public_key _ m h.transport_auth_public_key (
      Reads-field string_codec _ m.registration_token _ m h.registration_token (
        Reads-field bytes_codec _ m.proof_signature_mldsa65 _ m h.proof_signature_mldsa65 (
          Reads-last optional_bytes_codec _ m.rotation_signature_mldsa65
            h.rotation_signature_mldsa65))))

register_request_decodes :
    Decodes read_register_request (λ xs m. (xs ≡ register_request_text m) × RegisterRequestFits m)
unfolding read_register_request register_request_text
register_request_decodes = Decodes-field string_codec _ _ λ v0 h0.
    Decodes-field bytes_codec _ _ λ v1 h1. Decodes-field string_codec _ _ λ v2 h2.
      Decodes-field bytes_codec _ _ λ v3 h3. Decodes-last optional_bytes_codec _ _ λ v4 h4. (
        refl,
        record {
          user_id = h0;
          transport_auth_public_key = h1;
          registration_token = h2;
          proof_signature_mldsa65 = h3;
          rotation_signature_mldsa65 = h4;
        },
      )

pub register_request_codec :
    Codec write_register_request read_register_request register_request_text RegisterRequestFits
register_request_codec = record {
  writes = register_request-Writes;
  parses = record { reads = register_request-Reads; decodes = register_request_decodes };
}

pub record AuthBeginRequestFits (m : AuthBeginRequest) : Type 0 where
  pub user_id : StringFits m.user_id
  pub client_nonce : BytesFit m.client_nonce

unfoldable pub auth_begin_request_text : AuthBeginRequest → Bytes
auth_begin_request_text m = bytes_text m.user_id ++ (bytes_text m.client_nonce)

auth_begin_request-Writes :
    (m : AuthBeginRequest) → Writes (write_auth_begin_request m) (auth_begin_request_text m)
unfolding write_auth_begin_request auth_begin_request_text
auth_begin_request-Writes m =
    Writes-field string_codec m.user_id _ (bytes_codec.writes m.client_nonce)

auth_begin_request-Reads :
    (m : AuthBeginRequest)
    → AuthBeginRequestFits m
    → Reads read_auth_begin_request (auth_begin_request_text m) m
unfolding read_auth_begin_request auth_begin_request_text
auth_begin_request-Reads m h =
    Reads-field string_codec _ m.user_id _ m h.user_id
      (Reads-last bytes_codec _ m.client_nonce h.client_nonce)

auth_begin_request_decodes :
    Decodes read_auth_begin_request
      (λ xs m. (xs ≡ auth_begin_request_text m) × AuthBeginRequestFits m)
unfolding read_auth_begin_request auth_begin_request_text
auth_begin_request_decodes = Decodes-field string_codec _ _ λ v0 h0.
    Decodes-last bytes_codec _ _ λ v1 h1. (refl, record { user_id = h0; client_nonce = h1 })

pub auth_begin_request_codec :
    Codec write_auth_begin_request read_auth_begin_request auth_begin_request_text
      AuthBeginRequestFits
auth_begin_request_codec = record {
  writes = auth_begin_request-Writes;
  parses = record { reads = auth_begin_request-Reads; decodes = auth_begin_request_decodes };
}

pub record AuthBeginResponseFits (m : AuthBeginResponse) : Type 0 where
  pub challenge_id : StringFits m.challenge_id
  pub server_nonce : BytesFit m.server_nonce
  pub expires_at_unix : IsU64 m.expires_at_unix

unfoldable pub auth_begin_response_text : AuthBeginResponse → Bytes
auth_begin_response_text m =
    bytes_text m.challenge_id ++ (bytes_text m.server_nonce ++ (u64_text m.expires_at_unix))

auth_begin_response-Writes :
    (m : AuthBeginResponse) → Writes (write_auth_begin_response m) (auth_begin_response_text m)
unfolding write_auth_begin_response auth_begin_response_text
auth_begin_response-Writes m =
    Writes-field string_codec m.challenge_id _
      (Writes-field bytes_codec m.server_nonce _ (IsU64-codec.writes m.expires_at_unix))

auth_begin_response-Reads :
    (m : AuthBeginResponse)
    → AuthBeginResponseFits m
    → Reads read_auth_begin_response (auth_begin_response_text m) m
unfolding read_auth_begin_response auth_begin_response_text
auth_begin_response-Reads m h = Reads-field string_codec _ m.challenge_id _ m h.challenge_id (
    Reads-field bytes_codec _ m.server_nonce _ m h.server_nonce
      (Reads-last IsU64-codec _ m.expires_at_unix h.expires_at_unix))

auth_begin_response_decodes :
    Decodes read_auth_begin_response
      (λ xs m. (xs ≡ auth_begin_response_text m) × AuthBeginResponseFits m)
unfolding read_auth_begin_response auth_begin_response_text
auth_begin_response_decodes = Decodes-field string_codec _ _ λ v0 h0.
    Decodes-field bytes_codec _ _ λ v1 h1.
      Decodes-last IsU64-codec _ _
        λ v2 h2. (refl, record { challenge_id = h0; server_nonce = h1; expires_at_unix = h2 })

pub auth_begin_response_codec :
    Codec write_auth_begin_response read_auth_begin_response auth_begin_response_text
      AuthBeginResponseFits
auth_begin_response_codec = record {
  writes = auth_begin_response-Writes;
  parses = record { reads = auth_begin_response-Reads; decodes = auth_begin_response_decodes };
}
