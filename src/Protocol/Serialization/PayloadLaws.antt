-- ===== src/Protocol/Serialization/PayloadLaws.antt =====
-- Whole payloads are read back: the Deserialize functions of src/protocol/serialization.cpp against
-- the Serialize functions.
use pqchat.Prelude.{All, Bytes, IsByte, String, [], ap, length, ◌↔◌, ◌≡◌, ◌≤◌}
use pqchat.Protocol.PrekeyBundle.{PrekeyBundle}
use pqchat.Protocol.Serialization.BundleCodec.{PrekeyBundleFits, prekey_bundle_codec}
use pqchat.Protocol.Serialization.Codec.{Agrees-Parses, Codec}
use pqchat.Protocol.Serialization.Envelopes.{take_written}
use pqchat.Protocol.Serialization.Fields.{StringFits, string_codec}
use pqchat.Protocol.Serialization.FinishCodecs.{
  AuthFinishRequestFits, AuthFinishResponseFits, AuthenticatedPayloadFits,
  auth_finish_request_codec, auth_finish_response_codec, authenticated_payload_codec,
}
use pqchat.Protocol.Serialization.Payloads.{
  deserialize_auth_begin_request, deserialize_auth_begin_response, deserialize_auth_finish_request,
  deserialize_auth_finish_response, deserialize_authenticated_payload, deserialize_prekey_bundle,
  deserialize_register_request, deserialize_string, serialize_auth_begin_request,
  serialize_auth_begin_response, serialize_auth_finish_request, serialize_auth_finish_response,
  serialize_authenticated_payload, serialize_prekey_bundle, serialize_register_request,
  serialize_string,
}
use pqchat.Protocol.Serialization.Reader.{Read, max_serialized_input_bytes}
use pqchat.Protocol.Serialization.RequestCodecs.{
  AuthBeginRequestFits, AuthBeginResponseFits, RegisterRequestFits, auth_begin_request_codec,
  auth_begin_response_codec, register_request_codec,
}
use pqchat.Protocol.Serialization.Whole.{Agrees-run, decode_whole, decode_whole_written, run}
use pqchat.Protocol.Serialization.Writer.{Write}
use pqchat.Protocol.TransportAuth.{
  AuthBeginRequest, AuthBeginResponse, AuthFinishRequest, AuthFinishResponse, AuthenticatedPayload,
  RegisterRequest,
}
use pqchat.Result.{ok}

module _ {A : Type 0} {write : A → Write} {m : Read A} {text : A → Bytes} {Fits : A → Type 0}
    (c : Codec write m text Fits) (label trailing prefix : String) where
  pub whole_iff :
      (bytes : Bytes) (v : A)
      → All IsByte bytes
      → (decode_whole label trailing (run m prefix) bytes ≡ ok v) ↔ (
          Fits v
          × (ok (take_written (write v)) ≡ ok bytes)
          × (length bytes ≤ max_serialized_input_bytes))
  whole_iff =
      decode_whole_written (run m prefix) (Agrees-Parses (Agrees-run m prefix) c.parses) label
        trailing (λ v. ok (take_written (write v))) (λ v h. ap ok ((c.writes v).appends []))

-- `DeserializePrekeyBundle` accepts exactly what `SerializePrekeyBundle` writes for a prekey bundle in bounds, up to the
-- size limit, on every sequence of octets.
deserialize_prekey_bundle_iff :
    (bytes : Bytes) (v : PrekeyBundle)
    → All IsByte bytes
    → (deserialize_prekey_bundle bytes ≡ ok v) ↔ (
        PrekeyBundleFits v
        × (serialize_prekey_bundle v ≡ ok bytes)
        × (length bytes ≤ max_serialized_input_bytes))
unfolding deserialize_prekey_bundle serialize_prekey_bundle
deserialize_prekey_bundle_iff =
    whole_iff prekey_bundle_codec "prekey bundle payload"
      "decode prekey bundle failed: trailing bytes" "decode prekey bundle failed: "

-- `DeserializeString` accepts exactly what `SerializeString` writes for a string of at most 64 KiB, up to the
-- size limit, on every sequence of octets.
deserialize_string_iff :
    (bytes : Bytes) (v : Bytes)
    → All IsByte bytes
    → (deserialize_string bytes ≡ ok v) ↔ (
        StringFits v
        × (serialize_string v ≡ ok bytes)
        × (length bytes ≤ max_serialized_input_bytes))
unfolding deserialize_string serialize_string
deserialize_string_iff =
    whole_iff string_codec "string payload" "decode string failed: trailing bytes"
      "decode string failed: "

-- `DeserializeRegisterRequest` accepts exactly what `SerializeRegisterRequest` writes for a value in bounds, up to the
-- size limit, on every sequence of octets.
deserialize_register_request_iff :
    (bytes : Bytes) (v : RegisterRequest)
    → All IsByte bytes
    → (deserialize_register_request bytes ≡ ok v) ↔ (
        RegisterRequestFits v
        × (serialize_register_request v ≡ ok bytes)
        × (length bytes ≤ max_serialized_input_bytes))
unfolding deserialize_register_request serialize_register_request
deserialize_register_request_iff =
    whole_iff register_request_codec "register request payload"
      "decode register request failed: trailing bytes" "decode register request failed: "

-- `DeserializeAuthBeginRequest` accepts exactly what `SerializeAuthBeginRequest` writes for a value in bounds, up to the
-- size limit, on every sequence of octets.
deserialize_auth_begin_request_iff :
    (bytes : Bytes) (v : AuthBeginRequest)
    → All IsByte bytes
    → (deserialize_auth_begin_request bytes ≡ ok v) ↔ (
        AuthBeginRequestFits v
        × (serialize_auth_begin_request v ≡ ok bytes)
        × (length bytes ≤ max_serialized_input_bytes))
unfolding deserialize_auth_begin_request serialize_auth_begin_request
deserialize_auth_begin_request_iff =
    whole_iff auth_begin_request_codec "auth begin request payload"
      "decode auth begin request failed: trailing bytes" "decode auth begin request failed: "

-- `DeserializeAuthBeginResponse` accepts exactly what `SerializeAuthBeginResponse` writes for a value in bounds, up to the
-- size limit, on every sequence of octets.
deserialize_auth_begin_response_iff :
    (bytes : Bytes) (v : AuthBeginResponse)
    → All IsByte bytes
    → (deserialize_auth_begin_response bytes ≡ ok v) ↔ (
        AuthBeginResponseFits v
        × (serialize_auth_begin_response v ≡ ok bytes)
        × (length bytes ≤ max_serialized_input_bytes))
unfolding deserialize_auth_begin_response serialize_auth_begin_response
deserialize_auth_begin_response_iff =
    whole_iff auth_begin_response_codec "auth begin response payload"
      "decode auth begin response failed: trailing bytes" "decode auth begin response failed: "

-- `DeserializeAuthFinishRequest` accepts exactly what `SerializeAuthFinishRequest` writes for a value in bounds, up to the
-- size limit, on every sequence of octets.
deserialize_auth_finish_request_iff :
    (bytes : Bytes) (v : AuthFinishRequest)
    → All IsByte bytes
    → (deserialize_auth_finish_request bytes ≡ ok v) ↔ (
        AuthFinishRequestFits v
        × (serialize_auth_finish_request v ≡ ok bytes)
        × (length bytes ≤ max_serialized_input_bytes))
unfolding deserialize_auth_finish_request serialize_auth_finish_request
deserialize_auth_finish_request_iff =
    whole_iff auth_finish_request_codec "auth finish request payload"
      "decode auth finish request failed: trailing bytes" "decode auth finish request failed: "

-- `DeserializeAuthFinishResponse` accepts exactly what `SerializeAuthFinishResponse` writes for a value in bounds, up to the
-- size limit, on every sequence of octets.
deserialize_auth_finish_response_iff :
    (bytes : Bytes) (v : AuthFinishResponse)
    → All IsByte bytes
    → (deserialize_auth_finish_response bytes ≡ ok v) ↔ (
        AuthFinishResponseFits v
        × (serialize_auth_finish_response v ≡ ok bytes)
        × (length bytes ≤ max_serialized_input_bytes))
unfolding deserialize_auth_finish_response serialize_auth_finish_response
deserialize_auth_finish_response_iff =
    whole_iff auth_finish_response_codec "auth finish response payload"
      "decode auth finish response failed: trailing bytes" "decode auth finish response failed: "

-- `DeserializeAuthenticatedPayload` accepts exactly what `SerializeAuthenticatedPayload` writes for a value in bounds, up to the
-- size limit, on every sequence of octets.
deserialize_authenticated_payload_iff :
    (bytes : Bytes) (v : AuthenticatedPayload)
    → All IsByte bytes
    → (deserialize_authenticated_payload bytes ≡ ok v) ↔ (
        AuthenticatedPayloadFits v
        × (serialize_authenticated_payload v ≡ ok bytes)
        × (length bytes ≤ max_serialized_input_bytes))
unfolding deserialize_authenticated_payload serialize_authenticated_payload
deserialize_authenticated_payload_iff =
    whole_iff authenticated_payload_codec "authenticated payload"
      "decode authenticated payload failed: trailing bytes" "decode authenticated payload failed: "
