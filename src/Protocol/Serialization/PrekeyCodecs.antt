-- ===== src/Protocol/Serialization/PrekeyCodecs.antt =====
-- Codecs of the prekeys.
use pqchat.Prelude.{Bytes, IsU32, arith, refl, ◌++◌, ◌≡◌}
use pqchat.Protocol.PrekeyBundle.{OneTimePrekeyEc, OneTimePrekeyPq, SignedPrekeyEc, SignedPrekeyPq}
use pqchat.Protocol.Serialization.Codec.{
  Codec, Decodes, Decodes-field, Decodes-last, Reads, Reads-field, Reads-last, Writes-field,
}
use pqchat.Protocol.Serialization.Fields.{BytesFit, bytes_codec, bytes_text}
use pqchat.Protocol.Serialization.Items.{CountedFits, counted_codec, counted_text}
use pqchat.Protocol.Serialization.Prekeys.{
  read_one_time_ec, read_one_time_pq, read_one_time_prekey_ec, read_one_time_prekey_pq,
  read_signed_prekey_ec, read_signed_prekey_pq, write_one_time_ec, write_one_time_pq,
  write_one_time_prekey_ec, write_one_time_prekey_pq, write_signed_prekey_ec,
  write_signed_prekey_pq,
}
use pqchat.Protocol.Serialization.Reader.{max_one_time_prekeys}
use pqchat.Protocol.Serialization.Words.{IsU32-codec}
use pqchat.Protocol.Serialization.Writer.{Writes, u32_text}

pub record SignedPrekeyEcFits (m : SignedPrekeyEc) : Type 0 where
  pub id : IsU32 m.id
  pub public_key : BytesFit m.public_key
  pub signature_ed25519 : BytesFit m.signature_ed25519
  pub signature_mldsa65 : BytesFit m.signature_mldsa65

unfoldable pub signed_prekey_ec_text : SignedPrekeyEc → Bytes
signed_prekey_ec_text m =
    u32_text m.id
    ++ (bytes_text m.public_key
        ++ (bytes_text m.signature_ed25519 ++ (bytes_text m.signature_mldsa65)))

signed_prekey_ec-Writes :
    (m : SignedPrekeyEc) → Writes (write_signed_prekey_ec m) (signed_prekey_ec_text m)
unfolding write_signed_prekey_ec signed_prekey_ec_text
signed_prekey_ec-Writes m = Writes-field IsU32-codec m.id _ (
    Writes-field bytes_codec m.public_key _
      (Writes-field bytes_codec m.signature_ed25519 _ (bytes_codec.writes m.signature_mldsa65)))

signed_prekey_ec-Reads :
    (m : SignedPrekeyEc)
    → SignedPrekeyEcFits m
    → Reads read_signed_prekey_ec (signed_prekey_ec_text m) m
unfolding read_signed_prekey_ec signed_prekey_ec_text
signed_prekey_ec-Reads m h = Reads-field IsU32-codec _ m.id _ m h.id (
    Reads-field bytes_codec _ m.public_key _ m h.public_key (
      Reads-field bytes_codec _ m.signature_ed25519 _ m h.signature_ed25519
        (Reads-last bytes_codec _ m.signature_mldsa65 h.signature_mldsa65)))

signed_prekey_ec_decodes :
    Decodes read_signed_prekey_ec (λ xs m. (xs ≡ signed_prekey_ec_text m) × SignedPrekeyEcFits m)
unfolding read_signed_prekey_ec signed_prekey_ec_text
signed_prekey_ec_decodes = Decodes-field IsU32-codec _ _ λ v0 h0.
    Decodes-field bytes_codec _ _ λ v1 h1. Decodes-field bytes_codec _ _ λ v2 h2.
      Decodes-last bytes_codec _ _ λ v3 h3.
        (refl, record { id = h0; public_key = h1; signature_ed25519 = h2; signature_mldsa65 = h3 })

pub signed_prekey_ec_codec :
    Codec write_signed_prekey_ec read_signed_prekey_ec signed_prekey_ec_text SignedPrekeyEcFits
signed_prekey_ec_codec = record {
  writes = signed_prekey_ec-Writes;
  parses = record { reads = signed_prekey_ec-Reads; decodes = signed_prekey_ec_decodes };
}

pub record SignedPrekeyPqFits (m : SignedPrekeyPq) : Type 0 where
  pub id : IsU32 m.id
  pub public_key : BytesFit m.public_key
  pub signature_ed25519 : BytesFit m.signature_ed25519
  pub signature_mldsa65 : BytesFit m.signature_mldsa65

unfoldable pub signed_prekey_pq_text : SignedPrekeyPq → Bytes
signed_prekey_pq_text m =
    u32_text m.id
    ++ (bytes_text m.public_key
        ++ (bytes_text m.signature_ed25519 ++ (bytes_text m.signature_mldsa65)))

signed_prekey_pq-Writes :
    (m : SignedPrekeyPq) → Writes (write_signed_prekey_pq m) (signed_prekey_pq_text m)
unfolding write_signed_prekey_pq signed_prekey_pq_text
signed_prekey_pq-Writes m = Writes-field IsU32-codec m.id _ (
    Writes-field bytes_codec m.public_key _
      (Writes-field bytes_codec m.signature_ed25519 _ (bytes_codec.writes m.signature_mldsa65)))

signed_prekey_pq-Reads :
    (m : SignedPrekeyPq)
    → SignedPrekeyPqFits m
    → Reads read_signed_prekey_pq (signed_prekey_pq_text m) m
unfolding read_signed_prekey_pq signed_prekey_pq_text
signed_prekey_pq-Reads m h = Reads-field IsU32-codec _ m.id _ m h.id (
    Reads-field bytes_codec _ m.public_key _ m h.public_key (
      Reads-field bytes_codec _ m.signature_ed25519 _ m h.signature_ed25519
        (Reads-last bytes_codec _ m.signature_mldsa65 h.signature_mldsa65)))

signed_prekey_pq_decodes :
    Decodes read_signed_prekey_pq (λ xs m. (xs ≡ signed_prekey_pq_text m) × SignedPrekeyPqFits m)
unfolding read_signed_prekey_pq signed_prekey_pq_text
signed_prekey_pq_decodes = Decodes-field IsU32-codec _ _ λ v0 h0.
    Decodes-field bytes_codec _ _ λ v1 h1. Decodes-field bytes_codec _ _ λ v2 h2.
      Decodes-last bytes_codec _ _ λ v3 h3.
        (refl, record { id = h0; public_key = h1; signature_ed25519 = h2; signature_mldsa65 = h3 })

pub signed_prekey_pq_codec :
    Codec write_signed_prekey_pq read_signed_prekey_pq signed_prekey_pq_text SignedPrekeyPqFits
signed_prekey_pq_codec = record {
  writes = signed_prekey_pq-Writes;
  parses = record { reads = signed_prekey_pq-Reads; decodes = signed_prekey_pq_decodes };
}

pub record OneTimePrekeyEcFits (m : OneTimePrekeyEc) : Type 0 where
  pub id : IsU32 m.id
  pub public_key : BytesFit m.public_key

unfoldable pub one_time_prekey_ec_text : OneTimePrekeyEc → Bytes
one_time_prekey_ec_text m = u32_text m.id ++ (bytes_text m.public_key)

one_time_prekey_ec-Writes :
    (m : OneTimePrekeyEc) → Writes (write_one_time_prekey_ec m) (one_time_prekey_ec_text m)
unfolding write_one_time_prekey_ec one_time_prekey_ec_text
one_time_prekey_ec-Writes m = Writes-field IsU32-codec m.id _ (bytes_codec.writes m.public_key)

one_time_prekey_ec-Reads :
    (m : OneTimePrekeyEc)
    → OneTimePrekeyEcFits m
    → Reads read_one_time_prekey_ec (one_time_prekey_ec_text m) m
unfolding read_one_time_prekey_ec one_time_prekey_ec_text
one_time_prekey_ec-Reads m h =
    Reads-field IsU32-codec _ m.id _ m h.id (Reads-last bytes_codec _ m.public_key h.public_key)

one_time_prekey_ec_decodes :
    Decodes read_one_time_prekey_ec
      (λ xs m. (xs ≡ one_time_prekey_ec_text m) × OneTimePrekeyEcFits m)
unfolding read_one_time_prekey_ec one_time_prekey_ec_text
one_time_prekey_ec_decodes =
    Decodes-field IsU32-codec _ _
      λ v0 h0. Decodes-last bytes_codec _ _ λ v1 h1. (refl, record { id = h0; public_key = h1 })

one_time_prekey_ec_codec :
    Codec write_one_time_prekey_ec read_one_time_prekey_ec one_time_prekey_ec_text
      OneTimePrekeyEcFits
one_time_prekey_ec_codec = record {
  writes = one_time_prekey_ec-Writes;
  parses = record { reads = one_time_prekey_ec-Reads; decodes = one_time_prekey_ec_decodes };
}

pub record OneTimePrekeyPqFits (m : OneTimePrekeyPq) : Type 0 where
  pub id : IsU32 m.id
  pub public_key : BytesFit m.public_key

unfoldable pub one_time_prekey_pq_text : OneTimePrekeyPq → Bytes
one_time_prekey_pq_text m = u32_text m.id ++ (bytes_text m.public_key)

one_time_prekey_pq-Writes :
    (m : OneTimePrekeyPq) → Writes (write_one_time_prekey_pq m) (one_time_prekey_pq_text m)
unfolding write_one_time_prekey_pq one_time_prekey_pq_text
one_time_prekey_pq-Writes m = Writes-field IsU32-codec m.id _ (bytes_codec.writes m.public_key)

one_time_prekey_pq-Reads :
    (m : OneTimePrekeyPq)
    → OneTimePrekeyPqFits m
    → Reads read_one_time_prekey_pq (one_time_prekey_pq_text m) m
unfolding read_one_time_prekey_pq one_time_prekey_pq_text
one_time_prekey_pq-Reads m h =
    Reads-field IsU32-codec _ m.id _ m h.id (Reads-last bytes_codec _ m.public_key h.public_key)

one_time_prekey_pq_decodes :
    Decodes read_one_time_prekey_pq
      (λ xs m. (xs ≡ one_time_prekey_pq_text m) × OneTimePrekeyPqFits m)
unfolding read_one_time_prekey_pq one_time_prekey_pq_text
one_time_prekey_pq_decodes =
    Decodes-field IsU32-codec _ _
      λ v0 h0. Decodes-last bytes_codec _ _ λ v1 h1. (refl, record { id = h0; public_key = h1 })

one_time_prekey_pq_codec :
    Codec write_one_time_prekey_pq read_one_time_prekey_pq one_time_prekey_pq_text
      OneTimePrekeyPqFits
one_time_prekey_pq_codec = record {
  writes = one_time_prekey_pq-Writes;
  parses = record { reads = one_time_prekey_pq-Reads; decodes = one_time_prekey_pq_decodes };
}

pub one_time_ec_codec :
    Codec write_one_time_ec read_one_time_ec
      (counted_text one_time_prekey_ec_text)
      (CountedFits max_one_time_prekeys OneTimePrekeyEcFits)
unfolding write_one_time_ec read_one_time_ec
one_time_ec_codec =
    counted_codec max_one_time_prekeys "one-time EC prekey count" (omega arith)
      one_time_prekey_ec_codec

pub one_time_pq_codec :
    Codec write_one_time_pq read_one_time_pq
      (counted_text one_time_prekey_pq_text)
      (CountedFits max_one_time_prekeys OneTimePrekeyPqFits)
unfolding write_one_time_pq read_one_time_pq
one_time_pq_codec =
    counted_codec max_one_time_prekeys "one-time PQ prekey count" (omega arith)
      one_time_prekey_pq_codec
