-- ===== src/Protocol/Serialization/Payloads.antt =====
-- Whole payloads: the Serialize and Deserialize functions of src/protocol/serialization.cpp for
-- prekey bundles, strings and the requests and responses of the transport.
use pqchat.Prelude.{Bytes}
use pqchat.Protocol.PrekeyBundle.{PrekeyBundle}
use pqchat.Protocol.Serialization.Envelopes.{take_written}
use pqchat.Protocol.Serialization.Prekeys.{read_prekey_bundle, write_prekey_bundle}
use pqchat.Protocol.Serialization.Reader.{read_string}
use pqchat.Protocol.Serialization.Requests.{
  read_auth_begin_request, read_auth_begin_response, read_auth_finish_request,
  read_auth_finish_response, read_authenticated_payload, read_register_request,
  write_auth_begin_request, write_auth_begin_response, write_auth_finish_request,
  write_auth_finish_response, write_authenticated_payload, write_register_request,
}
use pqchat.Protocol.Serialization.Whole.{decode_whole, run}
use pqchat.Protocol.Serialization.Writer.{write_string}
use pqchat.Protocol.TransportAuth.{
  AuthBeginRequest, AuthBeginResponse, AuthFinishRequest, AuthFinishResponse, AuthenticatedPayload,
  RegisterRequest,
}
use pqchat.Result.{Result, ok}

unfoldable pub serialize_prekey_bundle : PrekeyBundle → Result Bytes
serialize_prekey_bundle value = ok (take_written (write_prekey_bundle value))

unfoldable pub deserialize_prekey_bundle : Bytes → Result PrekeyBundle
deserialize_prekey_bundle =
    decode_whole "prekey bundle payload" "decode prekey bundle failed: trailing bytes"
      (run read_prekey_bundle "decode prekey bundle failed: ")

unfoldable pub serialize_string : Bytes → Result Bytes
serialize_string value = ok (take_written (write_string value))

unfoldable pub deserialize_string : Bytes → Result Bytes
deserialize_string =
    decode_whole "string payload" "decode string failed: trailing bytes"
      (run read_string "decode string failed: ")

unfoldable pub serialize_register_request : RegisterRequest → Result Bytes
serialize_register_request value = ok (take_written (write_register_request value))

unfoldable pub deserialize_register_request : Bytes → Result RegisterRequest
deserialize_register_request =
    decode_whole "register request payload" "decode register request failed: trailing bytes"
      (run read_register_request "decode register request failed: ")

unfoldable pub serialize_auth_begin_request : AuthBeginRequest → Result Bytes
serialize_auth_begin_request value = ok (take_written (write_auth_begin_request value))

unfoldable pub deserialize_auth_begin_request : Bytes → Result AuthBeginRequest
deserialize_auth_begin_request =
    decode_whole "auth begin request payload" "decode auth begin request failed: trailing bytes"
      (run read_auth_begin_request "decode auth begin request failed: ")

unfoldable pub serialize_auth_begin_response : AuthBeginResponse → Result Bytes
serialize_auth_begin_response value = ok (take_written (write_auth_begin_response value))

unfoldable pub deserialize_auth_begin_response : Bytes → Result AuthBeginResponse
deserialize_auth_begin_response =
    decode_whole "auth begin response payload" "decode auth begin response failed: trailing bytes"
      (run read_auth_begin_response "decode auth begin response failed: ")

unfoldable pub serialize_auth_finish_request : AuthFinishRequest → Result Bytes
serialize_auth_finish_request value = ok (take_written (write_auth_finish_request value))

unfoldable pub deserialize_auth_finish_request : Bytes → Result AuthFinishRequest
deserialize_auth_finish_request =
    decode_whole "auth finish request payload" "decode auth finish request failed: trailing bytes"
      (run read_auth_finish_request "decode auth finish request failed: ")

unfoldable pub serialize_auth_finish_response : AuthFinishResponse → Result Bytes
serialize_auth_finish_response value = ok (take_written (write_auth_finish_response value))

unfoldable pub deserialize_auth_finish_response : Bytes → Result AuthFinishResponse
deserialize_auth_finish_response =
    decode_whole "auth finish response payload" "decode auth finish response failed: trailing bytes"
      (run read_auth_finish_response "decode auth finish response failed: ")

unfoldable pub serialize_authenticated_payload : AuthenticatedPayload → Result Bytes
serialize_authenticated_payload value = ok (take_written (write_authenticated_payload value))

unfoldable pub deserialize_authenticated_payload : Bytes → Result AuthenticatedPayload
deserialize_authenticated_payload =
    decode_whole "authenticated payload" "decode authenticated payload failed: trailing bytes"
      (run read_authenticated_payload "decode authenticated payload failed: ")
