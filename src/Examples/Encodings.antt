-- ===== src/Examples/Encodings.antt =====
-- Concrete messages and their bytes: src/protocol/serialization.cpp.
use pqchat.Prelude.{Bytes, List, [], codes, length, octets_only-All, refl, some, ◌↔◌, ◌∷◌, ◌≡◌, ◌≤◌}
use pqchat.Protocol.Messages.{ChatMessage, Envelope, InboxEnvelope, from_chat}
use pqchat.Protocol.Serialization.EnvelopeCodec.{EnvelopeFits, deserialize_envelope_iff}
use pqchat.Protocol.Serialization.Envelopes.{
  deserialize_envelope, deserialize_inbox_envelope_vector, serialize_envelope,
  serialize_inbox_envelope_vector,
}
use pqchat.Protocol.Serialization.InboxVector.{InboxItemFits, deserialize_inbox_envelope_vector_iff}
use pqchat.Protocol.Serialization.Reader.{max_serialized_input_bytes}
use pqchat.Protocol.Serialization.VectorCodecs.{VectorFits}
use pqchat.Result.{ok}

abbrev greeting : ChatMessage
greeting = record {
  session_id = codes "s";
  from_user = codes "al";
  to_user = codes "bo";
  header = record {
    sender_ratchet_public_key = some (9 ∷ []);
    previous_chain_length = 2;
    message_number = 3;
    flags = 1;
  };
  nonce = 4 ∷ [];
  ciphertext = 5 ∷ 6 ∷ [];
}

abbrev envelope_bytes : Bytes
envelope_bytes =
    1 ∷ 0 ∷ 0 ∷ 0 ∷ 1 ∷ 115 ∷ 0 ∷ 0 ∷ 0 ∷ 2 ∷ 97 ∷ 108 ∷ 0 ∷ 0 ∷ 0 ∷ 2 ∷ 98 ∷ 111 ∷ 1 ∷ 0 ∷ 0 ∷ 0
    ∷ 1 ∷ 9 ∷ 0 ∷ 0 ∷ 0 ∷ 0 ∷ 0 ∷ 0 ∷ 0 ∷ 2 ∷ 0 ∷ 0 ∷ 0 ∷ 0 ∷ 0 ∷ 0 ∷ 0 ∷ 3 ∷ 0 ∷ 0 ∷ 0 ∷ 1 ∷ 0 ∷ 0
    ∷ 0 ∷ 1 ∷ 4 ∷ 0 ∷ 0 ∷ 0 ∷ 2 ∷ 5 ∷ 6 ∷ []

abbrev envelope_value : Envelope
envelope_value = from_chat greeting

deserialize_envelope_iff_example : (deserialize_envelope envelope_bytes ≡ ok envelope_value) ↔ (
    EnvelopeFits envelope_value
    × (serialize_envelope envelope_value ≡ ok envelope_bytes)
    × (length envelope_bytes ≤ max_serialized_input_bytes))
deserialize_envelope_iff_example =
    deserialize_envelope_iff envelope_bytes envelope_value (octets_only-All envelope_bytes refl)

abbrev inbox_envelope_vector_bytes : Bytes
inbox_envelope_vector_bytes =
    0 ∷ 0 ∷ 0 ∷ 1 ∷ 0 ∷ 0 ∷ 0 ∷ 0 ∷ 0 ∷ 0 ∷ 0 ∷ 5 ∷ 0 ∷ 0 ∷ 0 ∷ 55 ∷ 1 ∷ 0 ∷ 0 ∷ 0 ∷ 1 ∷ 115 ∷ 0 ∷ 0
    ∷ 0 ∷ 2 ∷ 97 ∷ 108 ∷ 0 ∷ 0 ∷ 0 ∷ 2 ∷ 98 ∷ 111 ∷ 1 ∷ 0 ∷ 0 ∷ 0 ∷ 1 ∷ 9 ∷ 0 ∷ 0 ∷ 0 ∷ 0 ∷ 0 ∷ 0
    ∷ 0 ∷ 2 ∷ 0 ∷ 0 ∷ 0 ∷ 0 ∷ 0 ∷ 0 ∷ 0 ∷ 3 ∷ 0 ∷ 0 ∷ 0 ∷ 1 ∷ 0 ∷ 0 ∷ 0 ∷ 1 ∷ 4 ∷ 0 ∷ 0 ∷ 0 ∷ 2 ∷ 5
    ∷ 6 ∷ []

abbrev inbox_envelope_vector_value : List InboxEnvelope
inbox_envelope_vector_value = record { inbox_id = 5; envelope = from_chat greeting } ∷ []

deserialize_inbox_envelope_vector_iff_example :
    (deserialize_inbox_envelope_vector inbox_envelope_vector_bytes ≡ ok inbox_envelope_vector_value)
    ↔ (VectorFits InboxItemFits inbox_envelope_vector_value
        × (serialize_inbox_envelope_vector inbox_envelope_vector_value
            ≡ ok inbox_envelope_vector_bytes)
        × (length inbox_envelope_vector_bytes ≤ max_serialized_input_bytes))
deserialize_inbox_envelope_vector_iff_example =
    deserialize_inbox_envelope_vector_iff inbox_envelope_vector_bytes inbox_envelope_vector_value
      (octets_only-All inbox_envelope_vector_bytes refl)
