-- ===== src/Protocol/Serialization/InboxRequestLaws.antt =====
-- The requests of an inbox are read back.
use pqchat.Prelude.{
  ==_iff, All, Bool-cases, Bytes, IsByte, IsU64, Option, [], ap, arith, inl, inr, length, none,
  refl, some, subst, ℕ, ◌++◌, ◌==◌, ◌↔◌, ◌∷◌, ◌≡◌, ◌≤◌,
}
use pqchat.Protocol.Messages.{Envelope}
use pqchat.Protocol.Serialization.Codec.{
  Codec, Decodes, Decodes-fail, Decodes-field, Decodes-last, Decodes-pure, Reads, Reads-field,
  Reads-last, Reads-pure, Writes-field,
}
use pqchat.Protocol.Serialization.EnvelopeCodec.{envelope_text, serialize_envelope-text}
use pqchat.Protocol.Serialization.EnvelopeVector.{ItemFits, nested-ok, ok-nested}
use pqchat.Protocol.Serialization.Envelopes.{deserialize_envelope, take_written}
use pqchat.Protocol.Serialization.Fields.{
  BytesFit, OptionalFits, StringFits, bytes_codec, bytes_text, optional_text, optional-Writes,
  string_codec,
}
use pqchat.Protocol.Serialization.InboxFields.{
  DrainInboxRequest, EnqueueFields, read_ack, read_drain_inbox_request, read_enqueue_fields,
  write_ack, write_drain_inbox_request, write_enqueue_fields,
}
use pqchat.Protocol.Serialization.InboxRequests.{
  EnqueueRequest, decode_fields, deserialize_drain_inbox_request, deserialize_enqueue_request,
  serialize_drain_inbox_request, serialize_enqueue_request,
}
use pqchat.Protocol.Serialization.PayloadLaws.{whole_iff}
use pqchat.Protocol.Serialization.Reader.{max_serialized_input_bytes}
use pqchat.Protocol.Serialization.Words.{u8_codec}
use pqchat.Protocol.Serialization.Words64.{IsU64-codec}
use pqchat.Protocol.Serialization.Writer.{Writes, u64_text}
use pqchat.Result.{>>=-eq-ok, ok, ok-injective}

ack_decodes : Decodes read_ack (λ xs v. (xs ≡ optional_text u64_text v) × OptionalFits IsU64 v)
unfolding read_ack
ack_decodes = Decodes-field u8_codec _ _ λ tag h. elim (Bool-cases (tag == 1)) [
  | inl present ↦ rw present (
      Decodes-last IsU64-codec some _
        λ v hv. (ap (λ (t : ℕ). t ∷ u64_text v) ((==_iff tag 1).0 present), hv))
  | inr other ↦ elim (Bool-cases (tag == 0)) [
    | inl absent ↦
        rw (other, absent)
          (Decodes-pure none _ (ap (λ (t : ℕ). t ∷ []) ((==_iff tag 0).0 absent), tt))
    | inr bad ↦ rw (other, bad) (Decodes-fail "invalid ack tag" _)
  ]
]

ack-Reads : (v : Option ℕ) → OptionalFits IsU64 v → Reads read_ack (optional_text u64_text v) v
unfolding read_ack
ack-Reads none h = Reads-field u8_codec _ 0 [] none (omega arith) (Reads-pure none)
ack-Reads (some v) h =
    Reads-field u8_codec _ 1 (u64_text v) (some v) (omega arith) (Reads-last IsU64-codec some v h)

ack_codec : Codec write_ack read_ack (optional_text u64_text) (OptionalFits IsU64)
unfolding write_ack
ack_codec = record {
  writes = optional-Writes IsU64-codec;
  parses = record { reads = ack-Reads; decodes = ack_decodes };
}

pub record DrainInboxRequestFits (m : DrainInboxRequest) : Type 0 where
  pub user_id : StringFits m.user_id
  pub ack_up_to_inbox_id : OptionalFits IsU64 m.ack_up_to_inbox_id

unfoldable pub drain_inbox_request_text : DrainInboxRequest → Bytes
drain_inbox_request_text m = bytes_text m.user_id ++ (optional_text u64_text m.ack_up_to_inbox_id)

drain_inbox_request-Writes :
    (m : DrainInboxRequest) → Writes (write_drain_inbox_request m) (drain_inbox_request_text m)
unfolding write_drain_inbox_request drain_inbox_request_text
drain_inbox_request-Writes m =
    Writes-field string_codec m.user_id _ (ack_codec.writes m.ack_up_to_inbox_id)

drain_inbox_request-Reads :
    (m : DrainInboxRequest)
    → DrainInboxRequestFits m
    → Reads read_drain_inbox_request (drain_inbox_request_text m) m
unfolding read_drain_inbox_request drain_inbox_request_text
drain_inbox_request-Reads m h =
    Reads-field string_codec _ m.user_id _ m h.user_id
      (Reads-last ack_codec _ m.ack_up_to_inbox_id h.ack_up_to_inbox_id)

drain_inbox_request_decodes :
    Decodes read_drain_inbox_request
      (λ xs m. (xs ≡ drain_inbox_request_text m) × DrainInboxRequestFits m)
unfolding read_drain_inbox_request drain_inbox_request_text
drain_inbox_request_decodes = Decodes-field string_codec _ _ λ v0 h0.
    Decodes-last ack_codec _ _ λ v1 h1. (refl, record { user_id = h0; ack_up_to_inbox_id = h1 })

drain_inbox_request_codec :
    Codec write_drain_inbox_request read_drain_inbox_request drain_inbox_request_text
      DrainInboxRequestFits
drain_inbox_request_codec = record {
  writes = drain_inbox_request-Writes;
  parses = record { reads = drain_inbox_request-Reads; decodes = drain_inbox_request_decodes };
}

pub record EnqueueFieldsFits (m : EnqueueFields) : Type 0 where
  pub user_id : StringFits m.user_id
  pub envelope_bytes : BytesFit m.envelope_bytes

unfoldable pub enqueue_fields_text : EnqueueFields → Bytes
enqueue_fields_text m = bytes_text m.user_id ++ (bytes_text m.envelope_bytes)

enqueue_fields-Writes :
    (m : EnqueueFields) → Writes (write_enqueue_fields m) (enqueue_fields_text m)
unfolding write_enqueue_fields enqueue_fields_text
enqueue_fields-Writes m =
    Writes-field string_codec m.user_id _ (bytes_codec.writes m.envelope_bytes)

enqueue_fields-Reads :
    (m : EnqueueFields) → EnqueueFieldsFits m → Reads read_enqueue_fields (enqueue_fields_text m) m
unfolding read_enqueue_fields enqueue_fields_text
enqueue_fields-Reads m h =
    Reads-field string_codec _ m.user_id _ m h.user_id
      (Reads-last bytes_codec _ m.envelope_bytes h.envelope_bytes)

enqueue_fields_decodes :
    Decodes read_enqueue_fields (λ xs m. (xs ≡ enqueue_fields_text m) × EnqueueFieldsFits m)
unfolding read_enqueue_fields enqueue_fields_text
enqueue_fields_decodes = Decodes-field string_codec _ _ λ v0 h0.
    Decodes-last bytes_codec _ _ λ v1 h1. (refl, record { user_id = h0; envelope_bytes = h1 })

enqueue_fields_codec :
    Codec write_enqueue_fields read_enqueue_fields enqueue_fields_text EnqueueFieldsFits
enqueue_fields_codec = record {
  writes = enqueue_fields-Writes;
  parses = record { reads = enqueue_fields-Reads; decodes = enqueue_fields_decodes };
}

-- `DeserializeDrainInboxRequest` accepts exactly what `SerializeDrainInboxRequest` writes for a
-- user of at most 64 KiB and an acknowledgement, if there is one, of 64 bits, up to the size limit,
-- on every sequence of octets.
deserialize_drain_inbox_request_iff :
    (bytes : Bytes) (v : DrainInboxRequest)
    → All IsByte bytes
    → (deserialize_drain_inbox_request bytes ≡ ok v) ↔ (
        DrainInboxRequestFits v
        × (serialize_drain_inbox_request v ≡ ok bytes)
        × (length bytes ≤ max_serialized_input_bytes))
unfolding deserialize_drain_inbox_request serialize_drain_inbox_request
deserialize_drain_inbox_request_iff =
    whole_iff drain_inbox_request_codec "drain inbox request payload"
      "decode drain inbox request failed: trailing bytes" "decode drain inbox request failed: "

pub record EnqueueRequestFits (v : EnqueueRequest) : Type 0 where
  pub user_id : StringFits v.user_id
  pub envelope : ItemFits v.envelope

decode_fields_iff :
    (bytes : Bytes) (v : EnqueueFields)
    → All IsByte bytes
    → (decode_fields bytes ≡ ok v) ↔ (
        EnqueueFieldsFits v
        × (ok (take_written (write_enqueue_fields v)) ≡ ok bytes)
        × (length bytes ≤ max_serialized_input_bytes))
unfolding decode_fields
decode_fields_iff =
    whole_iff enqueue_fields_codec "enqueue request payload"
      "decode enqueue request failed: trailing bytes" "decode enqueue request failed: "

abbrev EnqueueAccepted : Bytes → EnqueueRequest → Type 0
EnqueueAccepted bytes v =
    EnqueueRequestFits v
    × (serialize_enqueue_request v ≡ ok bytes)
    × (length bytes ≤ max_serialized_input_bytes)

fields_accepted :
    (bytes : Bytes) (fields : EnqueueFields) (envelope : Envelope)
    → All IsByte bytes
    → decode_fields bytes ≡ ok fields
    → deserialize_envelope fields.envelope_bytes ≡ ok envelope
    → EnqueueAccepted bytes (record { user_id = fields.user_id; envelope = envelope })
unfolding serialize_enqueue_request
fields_accepted bytes fields envelope octets decoded nested =
    let (fits, written, small) = (decode_fields_iff bytes fields octets).0 decoded in
    let (same, item) = ok-nested fields.envelope_bytes envelope fits.envelope_bytes nested in
    (
      record { user_id = fits.user_id; envelope = item },
      rw (serialize_envelope-text envelope item.envelope_fits, ← same) written,
      small,
    )

enqueue_sound :
    (bytes : Bytes) (v : EnqueueRequest)
    → All IsByte bytes
    → deserialize_enqueue_request bytes ≡ ok v
    → EnqueueAccepted bytes v
unfolding deserialize_enqueue_request
enqueue_sound bytes v octets e =
    let (fields, decoded, e₁) = >>=-eq-ok (decode_fields bytes) _ e in
    let (envelope, nested, e₂) = >>=-eq-ok (deserialize_envelope fields.envelope_bytes) _ e₁ in
    subst (EnqueueAccepted bytes) (ok-injective e₂)
      (fields_accepted bytes fields envelope octets decoded nested)

enqueue_complete :
    (bytes : Bytes) (v : EnqueueRequest)
    → All IsByte bytes
    → EnqueueAccepted bytes v
    → deserialize_enqueue_request bytes ≡ ok v
unfolding deserialize_enqueue_request serialize_enqueue_request
enqueue_complete bytes v octets (fits, written, small) = rw (
  (decode_fields_iff bytes fields octets).1 (held, same, small),
  nested-ok v.envelope fits.envelope,
)
  where
    fields : EnqueueFields
    fields = record { user_id = v.user_id; envelope_bytes = envelope_text v.envelope }

    held : EnqueueFieldsFits fields
    held = record { user_id = fits.user_id; envelope_bytes = fits.envelope.field }

    same : ok (take_written (write_enqueue_fields fields)) ≡ ok bytes
    same = rw (serialize_envelope-text v.envelope fits.envelope.envelope_fits) at written

-- `DeserializeEnqueueRequest` accepts exactly what `SerializeEnqueueRequest` writes for a user of at
-- most 64 KiB and an envelope in bounds, up to the size limit, on every sequence of octets.
deserialize_enqueue_request_iff :
    (bytes : Bytes) (v : EnqueueRequest)
    → All IsByte bytes
    → (deserialize_enqueue_request bytes ≡ ok v) ↔ (
        EnqueueRequestFits v
        × (serialize_enqueue_request v ≡ ok bytes)
        × (length bytes ≤ max_serialized_input_bytes))
deserialize_enqueue_request_iff bytes v octets =
    (enqueue_sound bytes v octets, enqueue_complete bytes v octets)
