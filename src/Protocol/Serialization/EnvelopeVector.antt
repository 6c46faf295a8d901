-- ===== src/Protocol/Serialization/EnvelopeVector.antt =====
-- A sequence of envelopes is read back: DeserializeEnvelopeVector against SerializeEnvelopeVector of
-- src/protocol/serialization.cpp.
use pqchat.Prelude.{
  All, Bytes, IsByte, List, [], ap, append-nil, append_assoc, arith, length, subst, sym, ◌%◌, ◌++◌,
  ◌^◌, ◌↔◌, ◌∙◌, ◌∷◌, ◌≡◌, ◌≤◌,
}
use pqchat.Protocol.Messages.{Envelope}
use pqchat.Protocol.Serialization.Codec.{Decodes, Parses, Reads}
use pqchat.Protocol.Serialization.EnvelopeCodec.{
  EnvelopeFits, deserialize_envelope_iff, envelope_text, serialize_envelope-text,
}
use pqchat.Protocol.Serialization.Envelopes.{
  deserialize_envelope, deserialize_envelope_vector, read_envelope_item, read_envelope_vector,
  serialize_envelope_vector, write_envelopes,
}
use pqchat.Protocol.Serialization.Fields.{BytesFit, bytes_codec, bytes_text}
use pqchat.Protocol.Serialization.Items.{counted_text, items_text}
use pqchat.Protocol.Serialization.Reader.{max_serialized_input_bytes, read_bytes}
use pqchat.Protocol.Serialization.VectorCodecs.{VectorFits, vector_parses}
use pqchat.Protocol.Serialization.Whole.{
  Decodes-lift, Decodes-run, Decodes-then, Reads-lift, Reads-run, Reads-then, attempt,
  decode_whole_written, lift_result, run,
}
use pqchat.Protocol.Serialization.Writer.{u32_text, write_bytes-Writes, write_u32-Writes}
use pqchat.Result.{ok, ok-injective}

-- What a message is accepted as in a vector: its text is a field in bounds.
pub record ItemFits (envelope : Envelope) : Type 0 where
  pub envelope_fits : EnvelopeFits envelope
  pub field : BytesFit (envelope_text envelope)

abbrev pub item_text : Envelope → Bytes
item_text envelope = bytes_text (envelope_text envelope)

-- A field that is decoded as an envelope, as both vectors and EnqueueRequest do.
pub nested-ok :
    (envelope : Envelope)
    → ItemFits envelope
    → deserialize_envelope (envelope_text envelope) ≡ ok envelope
nested-ok envelope h =
    (deserialize_envelope_iff (envelope_text envelope) envelope h.field.octets).1 (
      h.envelope_fits,
      serialize_envelope-text envelope h.envelope_fits,
      omega (arith, h.field.within),
    )

pub ok-nested :
    (bytes : Bytes) (envelope : Envelope)
    → BytesFit bytes
    → deserialize_envelope bytes ≡ ok envelope
    → (bytes ≡ envelope_text envelope) × ItemFits envelope
ok-nested bytes envelope h e =
    let (fits, written, small) = (deserialize_envelope_iff bytes envelope h.octets).0 e in
    let same : bytes ≡ envelope_text envelope =
      ok-injective (sym written ∙ serialize_envelope-text envelope fits) in
    (same, record { envelope_fits = fits; field = subst BytesFit same h })

envelope_item-Reads :
    (envelope : Envelope)
    → ItemFits envelope
    → Reads (attempt read_envelope_item) (item_text envelope) envelope
unfolding read_envelope_item lift_result
envelope_item-Reads envelope h =
    subst (λ ts. Reads (attempt read_envelope_item) ts envelope) (append-nil (item_text envelope))
      (Reads-then (run read_bytes "decode envelope vector item failed: ")
        (λ bytes. lift_result (deserialize_envelope bytes) (λ e. e)) (item_text envelope) []
        (envelope_text envelope) envelope
        (Reads-run read_bytes _ (item_text envelope) (envelope_text envelope)
          (bytes_codec.reads (envelope_text envelope) h.field))
        (Reads-lift (deserialize_envelope (envelope_text envelope)) (λ e. e) envelope
          (nested-ok envelope h)))

envelope_item_decodes :
    Decodes (attempt read_envelope_item) (λ xs e. (xs ≡ item_text e) × ItemFits e)
unfolding read_envelope_item lift_result
envelope_item_decodes =
    Decodes-then (run read_bytes "decode envelope vector item failed: ")
      (λ bytes. lift_result (deserialize_envelope bytes) (λ e. e)) _ _
      (Decodes-run read_bytes _ _ bytes_codec.decodes)
      λ bytes xs p.
        Decodes-lift (deserialize_envelope bytes) (λ e. e) _
          λ e decoded.
            let (same, fits) = ok-nested bytes e p.1 decoded in
            (append-nil xs ∙ p.0 ∙ ap bytes_text same, fits)

envelope_item_parses : Parses (attempt read_envelope_item) item_text ItemFits
envelope_item_parses = record { reads = envelope_item-Reads; decodes = envelope_item_decodes }

write_envelopes-text :
    (envelopes : List Envelope) (out : Bytes)
    → All ItemFits envelopes
    → write_envelopes envelopes out ≡ ok (out ++ items_text item_text envelopes)
unfolding write_envelopes items_text
write_envelopes-text [] out h = ap ok (sym (append-nil out))
write_envelopes-text (e ∷ rest) out h =
    rw
      (
        serialize_envelope-text e h.0.envelope_fits,
        (write_bytes-Writes (envelope_text e)).appends out,
      )
      (write_envelopes-text rest (out ++ item_text e) h.1
        ∙ ap ok (append_assoc out (item_text e) (items_text item_text rest)))

serialize_envelope_vector-text :
    (envelopes : List Envelope)
    → VectorFits ItemFits envelopes
    → serialize_envelope_vector envelopes ≡ ok (counted_text item_text envelopes)
unfolding serialize_envelope_vector counted_text
serialize_envelope_vector-text envelopes h =
    rw ((write_u32-Writes (length envelopes % 2 ^ 32)).appends [])
      (write_envelopes-text envelopes (u32_text (length envelopes % 2 ^ 32)) h.items)

-- `DeserializeEnvelopeVector` accepts exactly what `SerializeEnvelopeVector` writes for at most
-- 4096 envelopes in bounds, each in at most 1 MiB, up to the size limit, on every sequence of octets.
deserialize_envelope_vector_iff :
    (bytes : Bytes) (envelopes : List Envelope)
    → All IsByte bytes
    → (deserialize_envelope_vector bytes ≡ ok envelopes) ↔ (
        VectorFits ItemFits envelopes
        × (serialize_envelope_vector envelopes ≡ ok bytes)
        × (length bytes ≤ max_serialized_input_bytes))
unfolding deserialize_envelope_vector read_envelope_vector
deserialize_envelope_vector_iff bytes envelopes octets =
    decode_whole_written read_envelope_vector
      (vector_parses read_envelope_item envelope_item_parses "envelope vector count"
        "decode envelope vector failed: ")
      "envelope vector payload" "decode envelope vector failed: trailing bytes"
      serialize_envelope_vector serialize_envelope_vector-text bytes envelopes octets
