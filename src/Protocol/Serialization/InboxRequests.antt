-- ===== src/Protocol/Serialization/InboxRequests.antt =====
-- The requests of an inbox: src/protocol/serialization.cpp, SerializeEnqueueRequest to
-- DeserializeDrainInboxRequest, and include/pqchat/protocol/serialization.h.
use pqchat.Prelude.{Bytes}
use pqchat.Protocol.Messages.{Envelope}
use pqchat.Protocol.Serialization.Envelopes.{deserialize_envelope, serialize_envelope, take_written}
use pqchat.Protocol.Serialization.InboxFields.{
  DrainInboxRequest, EnqueueFields, read_drain_inbox_request, read_enqueue_fields,
  write_drain_inbox_request, write_enqueue_fields,
}
use pqchat.Protocol.Serialization.Whole.{decode_whole, run}
use pqchat.Result.{Result, ok, ◌>>=◌}

pub record EnqueueRequest : Type 0 where
  pub user_id : Bytes
  pub envelope : Envelope

unfoldable pub serialize_enqueue_request : EnqueueRequest → Result Bytes
serialize_enqueue_request request = do
  envelope ← serialize_envelope request.envelope
  ok (
      take_written
        (write_enqueue_fields (record { user_id = request.user_id; envelope_bytes = envelope })))

unfoldable pub decode_fields : Bytes → Result EnqueueFields
decode_fields =
    decode_whole "enqueue request payload" "decode enqueue request failed: trailing bytes"
      (run read_enqueue_fields "decode enqueue request failed: ")

-- The end of the input is checked before the envelope is decoded.
unfoldable pub deserialize_enqueue_request : Bytes → Result EnqueueRequest
deserialize_enqueue_request bytes = do
  fields ← decode_fields bytes
  envelope ← deserialize_envelope fields.envelope_bytes
  ok (record { user_id = fields.user_id; envelope = envelope })

unfoldable pub serialize_drain_inbox_request : DrainInboxRequest → Result Bytes
serialize_drain_inbox_request request = ok (take_written (write_drain_inbox_request request))

unfoldable pub deserialize_drain_inbox_request : Bytes → Result DrainInboxRequest
deserialize_drain_inbox_request =
    decode_whole "drain inbox request payload" "decode drain inbox request failed: trailing bytes"
      (run read_drain_inbox_request "decode drain inbox request failed: ")
