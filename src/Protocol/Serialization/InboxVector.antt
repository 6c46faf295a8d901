-- ===== src/Protocol/Serialization/InboxVector.antt =====
-- A batch of an inbox is read back: DeserializeInboxEnvelopeVector against
-- SerializeInboxEnvelopeVector of src/protocol/serialization.cpp.
use pqchat.Prelude.{
  All, Bytes, IsByte, IsU64, List, [], ap, append-nil, append_assoc, ap₂, length, subst, sym, ℕ,
  ◌%◌, ◌++◌, ◌^◌, ◌↔◌, ◌∙◌, ◌∷◌, ◌≡◌, ◌≤◌,
}
use pqchat.Protocol.Messages.{Envelope, InboxEnvelope}
use pqchat.Protocol.Serialization.Codec.{Decodes, Parses, Reads}
use pqchat.Protocol.Serialization.EnvelopeCodec.{envelope_text, serialize_envelope-text}
use pqchat.Protocol.Serialization.EnvelopeVector.{ItemFits, item_text, nested-ok, ok-nested}
use pqchat.Protocol.Serialization.Envelopes.{
  deserialize_envelope, deserialize_inbox_envelope_vector, read_inbox_envelope_vector,
  read_inbox_item, serialize_inbox_envelope_vector, write_inbox_envelopes,
}
use pqchat.Protocol.Serialization.Fields.{bytes_codec, bytes_text}
use pqchat.Protocol.Serialization.Items.{counted_text, items_text}
use pqchat.Protocol.Serialization.Reader.{Reader, max_serialized_input_bytes, read_bytes, read_u64}
use pqchat.Protocol.Serialization.VectorCodecs.{VectorFits, vector_parses}
use pqchat.Protocol.Serialization.Whole.{
  Decodes-lift, Decodes-run, Decodes-then, Reads-lift, Reads-run, Reads-then, attempt,
  decode_whole_written, lift_result, run,
}
use pqchat.Protocol.Serialization.Words64.{IsU64-codec}
use pqchat.Protocol.Serialization.Writer.{
  u32_text, u64_text, write_bytes-Writes, write_u32-Writes, write_u64-Writes,
}
use pqchat.Result.{Result, ok, ◌>>=◌}

pub record InboxItemFits (item : InboxEnvelope) : Type 0 where
  pub inbox_id : IsU64 item.inbox_id
  pub envelope : ItemFits item.envelope

unfoldable pub inbox_item_text : InboxEnvelope → Bytes
inbox_item_text item = u64_text item.inbox_id ++ item_text item.envelope

abbrev inbox_item : ℕ → Envelope → InboxEnvelope
inbox_item id envelope = record { inbox_id = id; envelope = envelope }

-- What follows the identifier.
after_id : ℕ → Reader → Result (InboxEnvelope × Reader)
after_id id r = do
  (encoded, r') ← run read_bytes "decode inbox envelope vector item failed: " r
  envelope ← deserialize_envelope encoded
  ok (inbox_item id envelope, r')

after_id-Reads :
    (item : InboxEnvelope)
    → InboxItemFits item
    → Reads (attempt (after_id item.inbox_id)) (item_text item.envelope) item
unfolding after_id lift_result
after_id-Reads item h =
    subst (λ ts. Reads (attempt (after_id item.inbox_id)) ts item)
      (append-nil (item_text item.envelope))
      (Reads-then (run read_bytes "decode inbox envelope vector item failed: ")
        (λ bytes. lift_result (deserialize_envelope bytes) (inbox_item item.inbox_id))
        (item_text item.envelope) [] (envelope_text item.envelope) item
        (Reads-run read_bytes _ (item_text item.envelope) (envelope_text item.envelope)
          (bytes_codec.reads (envelope_text item.envelope) h.envelope.field))
        (Reads-lift (deserialize_envelope (envelope_text item.envelope)) (inbox_item item.inbox_id)
          item.envelope (nested-ok item.envelope h.envelope)))

inbox_item-Reads :
    (item : InboxEnvelope)
    → InboxItemFits item
    → Reads (attempt read_inbox_item) (inbox_item_text item) item
unfolding read_inbox_item inbox_item_text after_id
inbox_item-Reads item h =
    Reads-then (run read_u64 "decode inbox envelope vector item failed: ") after_id
      (u64_text item.inbox_id) (item_text item.envelope) item.inbox_id item
      (Reads-run read_u64 _ (u64_text item.inbox_id) item.inbox_id
        (IsU64-codec.reads item.inbox_id h.inbox_id))
      (after_id-Reads item h)

inbox_item_decodes :
    Decodes (attempt read_inbox_item) (λ xs item. (xs ≡ inbox_item_text item) × InboxItemFits item)
unfolding read_inbox_item inbox_item_text after_id lift_result
inbox_item_decodes =
    Decodes-then (run read_u64 "decode inbox envelope vector item failed: ") after_id _ _
      (Decodes-run read_u64 _ _ IsU64-codec.decodes)
      λ id us p.
        Decodes-then (run read_bytes "decode inbox envelope vector item failed: ")
          (λ bytes. lift_result (deserialize_envelope bytes) (inbox_item id)) _ _
          (Decodes-run read_bytes _ _ bytes_codec.decodes)
          λ bytes xs q. Decodes-lift (deserialize_envelope bytes) (inbox_item id) _ λ e decoded.
            let (same, fits) = ok-nested bytes e q.1 decoded in
            (
              ap₂ ◌++◌ p.0 (append-nil xs ∙ q.0 ∙ ap bytes_text same),
              record { inbox_id = p.1; envelope = fits },
            )

inbox_item_parses : Parses (attempt read_inbox_item) inbox_item_text InboxItemFits
inbox_item_parses = record { reads = inbox_item-Reads; decodes = inbox_item_decodes }

write_inbox_envelopes-text :
    (items : List InboxEnvelope) (out : Bytes)
    → All InboxItemFits items
    → write_inbox_envelopes items out ≡ ok (out ++ items_text inbox_item_text items)
unfolding write_inbox_envelopes items_text inbox_item_text
write_inbox_envelopes-text [] out h = ap ok (sym (append-nil out))
write_inbox_envelopes-text (item ∷ rest) out h =
    rw
      (
        serialize_envelope-text item.envelope h.0.envelope.envelope_fits,
        (write_u64-Writes item.inbox_id).appends out,
        (write_bytes-Writes (envelope_text item.envelope)).appends (out ++ u64_text item.inbox_id),
      )
      (write_inbox_envelopes-text rest _ h.1 ∙ simp append_assoc)

serialize_inbox_envelope_vector-text :
    (items : List InboxEnvelope)
    → VectorFits InboxItemFits items
    → serialize_inbox_envelope_vector items ≡ ok (counted_text inbox_item_text items)
unfolding serialize_inbox_envelope_vector counted_text
serialize_inbox_envelope_vector-text items h =
    rw ((write_u32-Writes (length items % 2 ^ 32)).appends [])
      (write_inbox_envelopes-text items (u32_text (length items % 2 ^ 32)) h.items)

-- `DeserializeInboxEnvelopeVector` accepts exactly what `SerializeInboxEnvelopeVector` writes for at
-- most 4096 items with a 64-bit identifier and an envelope in bounds, up to the size limit, on every sequence of octets.
pub deserialize_inbox_envelope_vector_iff :
    (bytes : Bytes) (items : List InboxEnvelope)
    → All IsByte bytes
    → (deserialize_inbox_envelope_vector bytes ≡ ok items) ↔ (
        VectorFits InboxItemFits items
        × (serialize_inbox_envelope_vector items ≡ ok bytes)
        × (length bytes ≤ max_serialized_input_bytes))
unfolding deserialize_inbox_envelope_vector read_inbox_envelope_vector
deserialize_inbox_envelope_vector_iff bytes items octets =
    decode_whole_written read_inbox_envelope_vector
      (vector_parses read_inbox_item inbox_item_parses "inbox envelope vector count"
        "decode inbox envelope vector failed: ")
      "inbox envelope vector payload" "decode inbox envelope vector failed: trailing bytes"
      serialize_inbox_envelope_vector serialize_inbox_envelope_vector-text bytes items octets
