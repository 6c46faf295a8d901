-- ===== src/Protocol/Serialization/InboxFields.antt =====
-- The fields of the requests of an inbox, in the order of src/protocol/serialization.cpp.
use pqchat.Prelude.{Bytes, Option, if◌then◌else◌, none, not, some, ℕ, ◌==◌}
use pqchat.Protocol.Serialization.Reader.{
  Read, fail, pure, read_bytes, read_string, read_u64, read_u8, ◌>>=◌,
}
use pqchat.Protocol.Serialization.Writer.{
  Write, write_bytes, write_optional, write_string, write_u64, ◌>>◌,
}

-- What an enqueue request holds before its envelope is decoded.
pub record EnqueueFields : Type 0 where
  pub user_id : Bytes
  pub envelope_bytes : Bytes

pub record DrainInboxRequest : Type 0 where
  pub user_id : Bytes
  pub ack_up_to_inbox_id : Option ℕ

unfoldable pub write_enqueue_fields : EnqueueFields → Write
write_enqueue_fields m = do write_string m.user_id; write_bytes m.envelope_bytes

unfoldable pub read_enqueue_fields : Read EnqueueFields
read_enqueue_fields = do
  user_id ← read_string
  envelope_bytes ← read_bytes
  pure (record { user_id = user_id; envelope_bytes = envelope_bytes })

unfoldable pub write_ack : Option ℕ → Write
write_ack = write_optional write_u64

-- The text of the error is that of the source after the prefix of its function.
unfoldable pub read_ack : Read (Option ℕ)
read_ack = do
  has_ack ← read_u8
  if has_ack == 1
      then (do id ← read_u64; pure (some id))
      else if not (has_ack == 0)
      then fail "invalid ack tag"
      else pure none

unfoldable pub write_drain_inbox_request : DrainInboxRequest → Write
write_drain_inbox_request m = do write_string m.user_id; write_ack m.ack_up_to_inbox_id

unfoldable pub read_drain_inbox_request : Read DrainInboxRequest
read_drain_inbox_request = do
  user_id ← read_string
  ack_up_to_inbox_id ← read_ack
  pure (record { user_id = user_id; ack_up_to_inbox_id = ack_up_to_inbox_id })
