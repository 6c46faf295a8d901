-- ===== src/Protocol/Serialization/Prekeys.antt =====
-- Prekeys: src/protocol/serialization.cpp, WriteSignedPrekeyEc to SerializePrekeyBundle.
use pqchat.Prelude.{List}
use pqchat.Protocol.PrekeyBundle.{
  OneTimePrekeyEc, OneTimePrekeyPq, PrekeyBundle, SignedPrekeyEc, SignedPrekeyPq,
}
use pqchat.Protocol.Serialization.Items.{read_counted, write_counted}
use pqchat.Protocol.Serialization.Reader.{
  Read, max_one_time_prekeys, pure, read_bytes, read_string, read_u32, ◌>>=◌,
}
use pqchat.Protocol.Serialization.Writer.{Write, write_bytes, write_string, write_u32, ◌>>◌}

unfoldable pub write_signed_prekey_ec : SignedPrekeyEc → Write
write_signed_prekey_ec m = do
  write_u32 m.id
  write_bytes m.public_key
  write_bytes m.signature_ed25519
  write_bytes m.signature_mldsa65

unfoldable pub read_signed_prekey_ec : Read SignedPrekeyEc
read_signed_prekey_ec = do
  id ← read_u32
  public_key ← read_bytes
  signature_ed25519 ← read_bytes
  signature_mldsa65 ← read_bytes
  pure (record {
    id = id;
    public_key = public_key;
    signature_ed25519 = signature_ed25519;
    signature_mldsa65 = signature_mldsa65;
  })

unfoldable pub write_signed_prekey_pq : SignedPrekeyPq → Write
write_signed_prekey_pq m = do
  write_u32 m.id
  write_bytes m.public_key
  write_bytes m.signature_ed25519
  write_bytes m.signature_mldsa65

unfoldable pub read_signed_prekey_pq : Read SignedPrekeyPq
read_signed_prekey_pq = do
  id ← read_u32
  public_key ← read_bytes
  signature_ed25519 ← read_bytes
  signature_mldsa65 ← read_bytes
  pure (record {
    id = id;
    public_key = public_key;
    signature_ed25519 = signature_ed25519;
    signature_mldsa65 = signature_mldsa65;
  })

unfoldable pub write_one_time_prekey_ec : OneTimePrekeyEc → Write
write_one_time_prekey_ec m = do write_u32 m.id; write_bytes m.public_key

unfoldable pub read_one_time_prekey_ec : Read OneTimePrekeyEc
read_one_time_prekey_ec = do
  id ← read_u32
  public_key ← read_bytes
  pure (record { id = id; public_key = public_key })

unfoldable pub write_one_time_prekey_pq : OneTimePrekeyPq → Write
write_one_time_prekey_pq m = do write_u32 m.id; write_bytes m.public_key

unfoldable pub read_one_time_prekey_pq : Read OneTimePrekeyPq
read_one_time_prekey_pq = do
  id ← read_u32
  public_key ← read_bytes
  pure (record { id = id; public_key = public_key })

unfoldable pub write_one_time_ec : List OneTimePrekeyEc → Write
write_one_time_ec = write_counted write_one_time_prekey_ec

unfoldable pub read_one_time_ec : Read (List OneTimePrekeyEc)
read_one_time_ec =
    read_counted max_one_time_prekeys "one-time EC prekey count" read_one_time_prekey_ec

unfoldable pub write_one_time_pq : List OneTimePrekeyPq → Write
write_one_time_pq = write_counted write_one_time_prekey_pq

unfoldable pub read_one_time_pq : Read (List OneTimePrekeyPq)
read_one_time_pq =
    read_counted max_one_time_prekeys "one-time PQ prekey count" read_one_time_prekey_pq

unfoldable pub write_prekey_bundle : PrekeyBundle → Write
write_prekey_bundle m = do
  write_string m.user_id
  write_bytes m.identity_sign_public_key
  write_bytes m.identity_mldsa_public_key
  write_bytes m.identity_dh_public_key
  write_signed_prekey_ec m.signed_prekey_ec
  write_signed_prekey_pq m.signed_prekey_pq
  write_one_time_ec m.one_time_ec
  write_one_time_pq m.one_time_pq
  write_bytes m.bundle_signature_ed25519
  write_bytes m.bundle_signature_mldsa65
  write_string m.version
  write_string m.cipher_suite

unfoldable pub read_prekey_bundle : Read PrekeyBundle
read_prekey_bundle = do
  user_id ← read_string
  identity_sign_public_key ← read_bytes
  identity_mldsa_public_key ← read_bytes
  identity_dh_public_key ← read_bytes
  signed_prekey_ec ← read_signed_prekey_ec
  signed_prekey_pq ← read_signed_prekey_pq
  one_time_ec ← read_one_time_ec
  one_time_pq ← read_one_time_pq
  bundle_signature_ed25519 ← read_bytes
  bundle_signature_mldsa65 ← read_bytes
  version ← read_string
  cipher_suite ← read_string
  pure (record {
    user_id = user_id;
    identity_sign_public_key = identity_sign_public_key;
    identity_mldsa_public_key = identity_mldsa_public_key;
    identity_dh_public_key = identity_dh_public_key;
    signed_prekey_ec = signed_prekey_ec;
    signed_prekey_pq = signed_prekey_pq;
    one_time_ec = one_time_ec;
    one_time_pq = one_time_pq;
    bundle_signature_ed25519 = bundle_signature_ed25519;
    bundle_signature_mldsa65 = bundle_signature_mldsa65;
    version = version;
    cipher_suite = cipher_suite;
  })
