-- ===== src/Client/LocalState/Restore.antt =====
-- The statements of LoadLocalState in src/client/client.cpp, and Create.
use pqchat.Client.Act.{prefix_error}
use pqchat.Client.Host.{Host}
use pqchat.Client.LocalState.Files.{read_all_file}
use pqchat.Client.LocalState.Load.{
  Load, checked, insert_each, insert_keys, load_items, loaded, max_one_time_keys,
  read_limited_count, read_one_time_ec_key, read_one_time_pq_key, read_pair, read_peer,
  read_session, read_signed_ec, read_signed_pq, section, ◌>>=◌, ◌>>◌,
}
use pqchat.Client.LocalState.Payload.{local_state_payload_magic}
use pqchat.Client.LocalState.Sealed.{read_state_bytes, unwrap_state_payload}
use pqchat.Client.State.{
  Client, Guards, OneTimePq, max_initial_replay_guards, max_persisted_peers, max_persisted_sessions,
}
use pqchat.Crypto.{check}
use pqchat.Crypto.Keys.{mldsa65_from_private_key, mlkem_from_private_key}
use pqchat.Prelude.{
  Bytes, List, Option, String, bytes_eq, empty_map, if◌then◌else◌, none, not, some, ℕ, ◌==◌,
}
use pqchat.Protocol.Serialization.Reader.{
  Read, is_finished, new_reader, pure as give, read_u64, read_u8, ◌>>=◌ as and_read,
}
use pqchat.Protocol.SignInputs.{protocol_version}
use pqchat.Result.{Result, err, ok, ◌>>=◌ as and_then}

-- The three texts of the header.
abbrev read_header : Read (Bytes × Bytes × Bytes)
read_header = and_read read_state_bytes λ magic. and_read read_state_bytes λ stored_user.
    and_read read_state_bytes λ stored_version. give (magic, stored_user, stored_version)

abbrev finished : Load (Unit {0})
finished reader =
    if not (is_finished reader)
    then err "decode local state failed: trailing bytes"
    else ok (tt, reader)

unfoldable pub load_header : Bytes → Load (Unit {0})
load_header user_id = do
  header ← section "decode local state header failed: " read_header
  checked (check (bytes_eq header.0 local_state_payload_magic) "unsupported local state format")
  checked (check (bytes_eq header.1 user_id) "local state user mismatch")
  checked (check (bytes_eq header.2 protocol_version) "local state protocol version mismatch")

unfoldable pub load_pending_ack : Load (Option ℕ)
load_pending_ack = do
  has_pending_ack ← section "decode local state pending ack tag failed: " read_u8
  if has_pending_ack == 1
      then (do ack ← section "decode local state pending ack failed: " read_u64; loaded (some ack))
      else if has_pending_ack == 0
      then loaded none
      else checked (err "decode local state pending ack tag invalid")

-- A list of texts with its count: the order of a set of replay guards.
unfoldable pub load_order : String → String → String → Load (List Bytes)
load_order count_prefix label entry_prefix = do
  count ← section count_prefix (read_limited_count max_initial_replay_guards label)
  load_items count (section entry_prefix read_state_bytes)

unfoldable pub load_guards : Load Guards
load_guards = do
  sessions ←
      load_order "decode local state replay sessions failed: " "seen initial session count"
        "decode local state replay session entry failed: "
  transcripts ←
      load_order "decode local state replay transcripts failed: " "seen initial transcript count"
        "decode local state replay transcript entry failed: "
  loaded (record {
    seen_initial_session_ids = insert_keys sessions empty_map;
    seen_initial_transcript_hashes = insert_keys transcripts empty_map;
    seen_initial_session_order = sessions;
    seen_initial_transcript_order = transcripts;
  })

module _ {W : Type 0} (host : Host W) where
  unfoldable pub load_one_time_pq : Load OneTimePq
  load_one_time_pq = do
    key ← section "decode local state one-time pq key failed: " read_one_time_pq_key
    pair ← checked (
        prefix_error "restore one-time pq key failed: "
          (mlkem_from_private_key host.openssl host.evp key.1 key.0.public_key))
    loaded (record { public_part = key.0; private_part = pair })

  unfoldable pub load_client : Bytes → Bytes → Load Client
  load_client user_id path = do
    load_header user_id
    sign ← section "decode local state identity sign key failed: " read_pair
    mldsa ← section "decode local state identity mldsa key failed: " read_pair
    mldsa_pair ← checked (
        prefix_error "restore identity mldsa key failed: "
          (mldsa65_from_private_key host.openssl host.evp mldsa.private_key mldsa.public_key))
    dh ← section "decode local state identity dh key failed: " read_pair
    ec ← section "decode local state signed prekey ec failed: " read_signed_ec
    pq ← section "decode local state signed prekey pq failed: " read_signed_pq
    pq_pair ← checked (
        prefix_error "restore signed prekey pq failed: "
          (mlkem_from_private_key host.openssl host.evp pq.1 pq.0.public_key))
    ec_count ←
        section "decode local state one-time ec count failed: "
          (read_limited_count max_one_time_keys "one-time ec count")
    ec_keys ←
        load_items ec_count
          (section "decode local state one-time ec key failed: " read_one_time_ec_key)
    pq_count ←
        section "decode local state one-time pq count failed: "
          (read_limited_count max_one_time_keys "one-time pq count")
    pq_keys ← load_items pq_count load_one_time_pq
    dirty ← section "decode local state prekeys_dirty failed: " read_u8
    pending ← load_pending_ack
    peer_count ←
        section "decode local state trusted peers failed: "
          (read_limited_count max_persisted_peers "trusted peer count")
    peers ← load_items peer_count (section "decode local state trusted peer failed: " read_peer)
    session_count ←
        section "decode local state sessions failed: "
          (read_limited_count max_persisted_sessions "session count")
    sessions ← load_items session_count (section "decode local state session failed: " read_session)
    guards ← load_guards
    finished
    loaded (record {
      user_id = user_id;
      local_state_path = path;
      identity_sign_key = sign;
      identity_mldsa_key = mldsa_pair;
      identity_dh_key = dh;
      signed_prekey_ec_public = ec.0;
      signed_prekey_ec_private = ec.1;
      signed_prekey_pq_public = pq.0;
      signed_prekey_pq_private = pq_pair;
      one_time_ec_pool = ec_keys;
      one_time_pq_pool = pq_keys;
      prekeys_dirty = not (dirty == 0);
      pending_inbox_ack_up_to_id = pending;
      trusted_peer_identities = insert_each peers empty_map;
      sessions_by_peer = insert_each sessions empty_map;
      guards = guards;
    })

  unfoldable pub load_local_state : Bytes → Bytes → W → Result Client
  load_local_state user_id path w = and_then (read_all_file host path w) λ file_bytes.
      and_then (unwrap_state_payload host file_bytes w)
        λ payload. and_then (load_client user_id path (new_reader payload)) λ out. ok out.0
