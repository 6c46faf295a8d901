-- ===== src/Client/LocalState/Sealed.antt =====
-- EncryptStatePayload and UnwrapStatePayload of src/client/client.cpp. The class StateReader has the
-- methods of the Reader again, but its Bytes sets no limit to a length.
use pqchat.Client.Act.{prefix_error}
use pqchat.Client.Host.{Host}
use pqchat.Client.LocalState.Payload.{local_state_payload_magic}
use pqchat.Crypto.{check, non_null}
use pqchat.Crypto.Aead.{open_sealed, seal}
use pqchat.Prelude.{
  Bytes, Option, String, bytes_eq, codes, concat, if◌then◌else◌, length, none, not, some, ℕ, ◌==◌,
}
use pqchat.Protocol.Serialization.Envelopes.{take_written}
use pqchat.Protocol.Serialization.Reader.{
  Read, Reader, is_finished, new_reader, pure as give, read_slice, read_u32, ◌>>=◌ as and_read,
}
use pqchat.Protocol.Serialization.Writer.{write_bytes, write_string, ◌>>◌}
use pqchat.Result.{Result, err, ok, ◌>>=◌ as and_then}
use pqchat.Server.InMemory.State.{empty}

abbrev pub local_state_encrypted_magic : Bytes
local_state_encrypted_magic = codes "pqchat_client_state_encrypted_v1"

abbrev state_encryption_salt_bytes : ℕ
state_encryption_salt_bytes = 16

-- StateReader::Bytes; Secure and String are the same.
unfoldable pub read_state_bytes : Read Bytes
read_state_bytes = and_read read_u32 read_slice

-- `if (!reader.X(…)) return Err(prefix + reader.error())`
abbrev pub decoded : {A : Type 0} → String → Option A × Reader → Result (A × Reader)
decoded prefix (none, r) = err (concat prefix r.error)
decoded prefix (some a, r) = ok (a, r)

-- The three fields after the magic.
abbrev pub read_wrapper : Read (Bytes × Bytes × Bytes)
read_wrapper = and_read read_state_bytes λ salt.
    and_read read_state_bytes
      λ nonce. and_read read_state_bytes λ ciphertext. give (salt, nonce, ciphertext)

module _ {W : Type 0} (host : Host W) where
  unfoldable pub read_state_passphrase : W → Result Bytes
  read_state_passphrase w = elim (host.passphrase w) [
    | none ↦ err "PQCHAT_STATE_PASSPHRASE is required for encrypted local state"
    | some text ↦
        if empty text
        then err "PQCHAT_STATE_PASSPHRASE is required for encrypted local state"
        else ok text
  ]

  unfoldable pub derive_state_encryption_key : Bytes → Bytes → Result Bytes
  derive_state_encryption_key passphrase salt =
      and_then (check (length salt == state_encryption_salt_bytes) "invalid state encryption salt")
        λ _. non_null (host.pbkdf2 passphrase salt) "PBKDF2 state key derivation failed"

  -- What is written around the encrypted payload.
  unfoldable pub wrapped : Bytes → Bytes → Bytes → Bytes
  wrapped salt nonce ciphertext = take_written do
    write_string local_state_encrypted_magic
    write_bytes salt
    write_bytes nonce
    write_bytes ciphertext

  unfoldable pub seal_payload : Bytes → Bytes → Bytes → Bytes → Result Bytes
  seal_payload key salt nonce payload_plaintext =
      and_then
        (prefix_error "state encryption failed: "
          (seal host.evp key nonce payload_plaintext local_state_encrypted_magic))
        λ ciphertext. ok (wrapped salt nonce ciphertext)

  unfoldable pub encrypt_with_salt : Bytes → Bytes → Bytes → W → Result Bytes × W
  encrypt_with_salt payload_plaintext passphrase salt w =
      elim (derive_state_encryption_key passphrase salt) [
        | err text ↦ (err text, w)
        | ok key ↦
            let (nonce, w') = host.evp.rand_bytes 12 w in
            (
              and_then (non_null nonce "RAND_bytes failed")
                  λ drawn. seal_payload key salt drawn payload_plaintext,
              w',
            )
      ]

  unfoldable pub encrypt_state_payload : Bytes → W → Result Bytes × W
  encrypt_state_payload payload_plaintext w = elim (read_state_passphrase w) [
    | err text ↦ (err text, w)
    | ok passphrase ↦
        let (salt, w') = host.evp.rand_bytes state_encryption_salt_bytes w in
        elim salt [
          | none ↦ (err "RAND_bytes failed", w')
          | some drawn ↦ encrypt_with_salt payload_plaintext passphrase drawn w'
        ]
  ]

  unfoldable pub unseal_payload : Bytes → Bytes → Bytes → W → Result Bytes
  unseal_payload salt nonce ciphertext w = and_then (read_state_passphrase w) λ passphrase.
      and_then (derive_state_encryption_key passphrase salt) λ key.
        prefix_error "state decryption failed: "
          (open_sealed host.evp key nonce ciphertext local_state_encrypted_magic)

  unfoldable pub unwrap_encrypted : Reader → W → Result Bytes
  unwrap_encrypted reader w =
      and_then (decoded "decode local state wrapper failed: " (read_wrapper reader)) λ read.
        let (salt, nonce, ciphertext) = read.0 in
        if not (is_finished read.1)
        then err "decode local state wrapper failed: trailing bytes"
        else unseal_payload salt nonce ciphertext w

  unfoldable pub unwrap_state_payload : Bytes → W → Result Bytes
  unwrap_state_payload file_bytes w =
      and_then
        (decoded "decode local state wrapper failed: " (read_state_bytes (new_reader file_bytes)))
        λ read.
          if bytes_eq read.0 local_state_payload_magic
          then ok file_bytes
          else if not (bytes_eq read.0 local_state_encrypted_magic)
          then err "unsupported local state format"
          else unwrap_encrypted read.1 w
