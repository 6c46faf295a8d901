-- ===== src/Client/LocalState/Payload.antt =====
-- What SaveLocalState of src/client/client.cpp writes. The class StateWriter has the methods of the Writer
-- again.
use pqchat.Client.Act.{prefix_error}
use pqchat.Client.Host.{Host}
use pqchat.Client.State.{
  Client, OneTimeEc, OneTimePq, PeerIdentity, SessionState, max_persisted_peers,
  max_persisted_sessions,
}
use pqchat.Crypto.{check}
use pqchat.Crypto.Keys.{export_private_key}
use pqchat.Prelude.{
  Bool, Bytes, List, Option, [], codes, if◌then◌else◌, length, ltb, none, not, some, ℕ, ◌%◌, ◌^◌,
  ◌∷◌,
}
use pqchat.Protocol.Serialization.Envelopes.{take_written}
use pqchat.Protocol.Serialization.Writer.{
  Write, write_bytes, write_string, write_u32, write_u64, write_u8, ◌>>◌,
}
use pqchat.Protocol.SignInputs.{protocol_version}
use pqchat.Result.{Result, ok, ◌>>=◌}

abbrev pub local_state_payload_magic : Bytes
local_state_payload_magic = codes "pqchat_client_state_payload_v2"

-- `for (const auto& item : items)`
abbrev write_each : {A : Type 0} → (A → Write) → List A → Write
write_each write [] out = out
write_each write (item ∷ items) out = write_each write items (write item out)

-- The count, then the items.
abbrev pub write_counted : {A : Type 0} → (A → Write) → List A → Write
write_counted write items = do write_u32 (length items % 2 ^ 32); write_each write items

abbrev write_flag : Bool → Write
write_flag flag = write_u8 (if flag then 1 else 0)

unfoldable pub write_one_time_ec_key : OneTimeEc → Write
write_one_time_ec_key key = do
  write_u32 key.public_part.id
  write_bytes key.public_part.public_key
  write_bytes key.private_part.private_key

-- The key and its exported private key.
unfoldable pub write_one_time_pq_key : OneTimePq × Bytes → Write
write_one_time_pq_key (key, priv) = do
  write_u32 key.public_part.id
  write_bytes key.public_part.public_key
  write_bytes priv

abbrev write_pending_ack : Option ℕ → Write
write_pending_ack none = write_u8 0
write_pending_ack (some ack) = do write_u8 1; write_u64 ack

unfoldable pub write_peer : Bytes × PeerIdentity → Write
write_peer (peer_user, peer) = do
  write_string peer_user
  write_bytes peer.sign_public_key
  write_bytes peer.mldsa_public_key
  write_bytes peer.dh_public_key
  write_flag peer.verified

unfoldable pub write_session : Bytes × SessionState → Write
write_session (peer_user, session) = do
  write_string peer_user
  write_string session.session_id
  write_string session.peer_user
  write_flag session.is_initiator
  write_bytes session.root_key
  write_bytes session.send_chain_key
  write_bytes session.recv_chain_key
  write_u64 session.send_counter
  write_u64 session.recv_counter
  write_u64 session.previous_send_chain_length
  write_bytes session.local_ratchet_key.private_key
  write_bytes session.local_ratchet_key.public_key
  write_bytes session.remote_ratchet_public

unfoldable pub write_keys : Client → Bytes → Bytes → Write
write_keys client identity_mldsa_private signed_prekey_pq_private = do
  write_bytes client.identity_sign_key.private_key
  write_bytes client.identity_sign_key.public_key
  write_bytes identity_mldsa_private
  write_bytes client.identity_mldsa_key.public_key
  write_bytes client.identity_dh_key.private_key
  write_bytes client.identity_dh_key.public_key
  write_u32 client.signed_prekey_ec_public.id
  write_bytes client.signed_prekey_ec_public.public_key
  write_bytes client.signed_prekey_ec_public.signature_ed25519
  write_bytes client.signed_prekey_ec_public.signature_mldsa65
  write_bytes client.signed_prekey_ec_private.private_key
  write_u32 client.signed_prekey_pq_public.id
  write_bytes client.signed_prekey_pq_public.public_key
  write_bytes client.signed_prekey_pq_public.signature_ed25519
  write_bytes client.signed_prekey_pq_public.signature_mldsa65
  write_bytes signed_prekey_pq_private

module _ {W : Type 0} (host : Host W) where
  -- ExportPrivateKey of each key of the pool.
  unfoldable pub export_pool : List OneTimePq → Result (List (OneTimePq × Bytes))
  export_pool [] = ok []
  export_pool (key ∷ keys) = do
    priv ←
        prefix_error "export one-time pq private key failed: "
          (export_private_key host.openssl host.evp key.private_part.private_key)
    rest ← export_pool keys
    ok ((key, priv) ∷ rest)

  -- The statements of SaveLocalState from the first write to the last.
  unfoldable pub state_payload : Client → Result Bytes
  state_payload client =
      let peers = host.peer_entries client.trusted_peer_identities in
      let sessions = host.session_entries client.sessions_by_peer in
      do
        identity_mldsa_private ←
            prefix_error "export identity mldsa private key failed: "
              (export_private_key host.openssl host.evp client.identity_mldsa_key.private_key)
        signed_prekey_pq_private ←
            prefix_error "export signed prekey pq private key failed: "
              (export_private_key host.openssl host.evp client.signed_prekey_pq_private.private_key)
        pq_keys ← export_pool client.one_time_pq_pool
        _ ←
            check (not (ltb max_persisted_peers (length peers)))
              "too many trusted peer identities to persist"
        _ ←
            check (not (ltb max_persisted_sessions (length sessions)))
              "too many sessions to persist"
        ok (
            take_written do
              write_string local_state_payload_magic
              write_string client.user_id
              write_string protocol_version
              write_keys client identity_mldsa_private signed_prekey_pq_private
              write_counted write_one_time_ec_key client.one_time_ec_pool
              write_counted write_one_time_pq_key pq_keys
              write_flag client.prekeys_dirty
              write_pending_ack client.pending_inbox_ack_up_to_id
              write_counted write_peer peers
              write_counted write_session sessions
              write_counted write_string client.guards.seen_initial_session_order
              write_counted write_string client.guards.seen_initial_transcript_order)
