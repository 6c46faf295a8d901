-- ===== src/Client/KeySchedule.antt =====
-- The key schedule of src/client/client.cpp: U64Bytes to DecryptChainStep. Where the source reads past the
-- end of what HKDF returned there is no model: the derivation returns as many bytes as it is asked for.
use pqchat.Client.Host.{Host}
use pqchat.Crypto.Aead.{open_sealed, seal}
use pqchat.Crypto.Keys.{concat_parts, hkdf_sha256}
use pqchat.Prelude.{Bool, Bytes, [], codes, drop, if◌then◌else◌, take, ℕ, ◌∷◌}
use pqchat.Protocol.Serialization.Writer.{u64_text}
use pqchat.Result.{Result, ok, ◌>>=◌}

-- The loop of U64Bytes fills the places from the first to the last.
unfoldable pub u64_bytes : ℕ → Bytes
u64_bytes value = u64_text value

pub record HandshakeKeys : Type 0 where
  pub root : Bytes
  pub send : Bytes
  pub recv : Bytes

-- The message key and the next chain key.
pub record StepKeys : Type 0 where
  pub message_key : Bytes
  pub next_chain_key : Bytes

pub record RatchetKeys : Type 0 where
  pub new_chain : Bytes
  pub new_root : Bytes

-- What a chain step returns, and the chain key that it leaves.
pub record Stepped : Type 0 where
  pub text : Bytes
  pub chain_key : Bytes

abbrev slice : ℕ → ℕ → Bytes → Bytes
slice from size bytes = take size (drop from bytes)

unfoldable pub split_handshake : Bytes → Bool → HandshakeKeys
split_handshake material initiator =
    let c1 = slice 32 32 material in
    let c2 = slice 64 32 material in
    record {
      root = slice 0 32 material;
      send = if initiator then c1 else c2;
      recv = if initiator then c2 else c1;
    }

module _ {W : Type 0} (host : Host W) where
  unfoldable pub derive_key_material : Bytes → Bytes → Bytes → Bytes → ℕ → Result Bytes
  derive_key_material ikm salt label context out_len =
      hkdf_sha256 host.openssl host.evp ikm salt (concat_parts (label ∷ context ∷ [])) out_len

  unfoldable pub derive_handshake_keys : Bytes → Bytes → Bool → Result HandshakeKeys
  derive_handshake_keys ikm transcript_hash initiator = do
    material ← derive_key_material ikm [] (codes "pqchat_handshake_keys_v1") transcript_hash 96
    ok (split_handshake material initiator)

  unfoldable pub derive_message_key_and_next_chain : Bytes → ℕ → Result StepKeys
  derive_message_key_and_next_chain chain_key counter = do
    bytes ← derive_key_material chain_key [] (codes "pqchat_chain_step_v1") (u64_bytes counter) 64
    ok (record { message_key = slice 0 32 bytes; next_chain_key = slice 32 32 bytes })

  unfoldable pub derive_ratchet_root_and_chain : Bytes → Bytes → Result RatchetKeys
  derive_ratchet_root_and_chain dh root_key = do
    bytes ← derive_key_material dh root_key (codes "pqchat_ratchet_step_v1") [] 64
    ok (record { new_chain = slice 0 32 bytes; new_root = slice 32 32 bytes })

  -- Where it fails the chain key stays.
  unfoldable pub encrypt_chain_step : Bytes → ℕ → Bytes → Bytes → Bytes → Result Stepped
  encrypt_chain_step chain_key counter nonce plaintext ad = do
    keys ← derive_message_key_and_next_chain chain_key counter
    ciphertext ← seal host.evp keys.message_key nonce plaintext ad
    ok (record { text = ciphertext; chain_key = keys.next_chain_key })

  unfoldable pub decrypt_chain_step : Bytes → ℕ → Bytes → Bytes → Bytes → Result Stepped
  decrypt_chain_step chain_key counter nonce ciphertext ad = do
    keys ← derive_message_key_and_next_chain chain_key counter
    plaintext ← open_sealed host.evp keys.message_key nonce ciphertext ad
    ok (record { text = plaintext; chain_key = keys.next_chain_key })
