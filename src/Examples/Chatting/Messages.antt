-- ===== src/Examples/Chatting/Messages.antt =====
-- Messages within a session: src/client/client.cpp.
use pqchat.Client.Act.{◌>>=◌}
use pqchat.Client.Chat.{
  decrypt_chat, draft, encrypt_chat, handle_chat_message, move_send_ratchet, next_ratchet,
  ratchet_due, ratchet_to_receive, ratchet_to_send, same_ratchet, send_draft, send_message,
  sent_session, set_session,
}
use pqchat.Client.ChatSafety.{InOrder, accepted-InOrder, accepted_once}
use pqchat.Client.Delivered.{Delivered, send_message-Delivered}
use pqchat.Client.KeySchedule.{
  Stepped, decrypt_chain_step, derive_key_material, derive_message_key_and_next_chain,
  derive_ratchet_root_and_chain, encrypt_chain_step,
}
use pqchat.Client.LocalState.Files.{
  after_loop, commit_file, ensure_state_dir, fsync_directory, parent_dir, write_all_file_atomic,
  write_loop, write_temp,
}
use pqchat.Client.LocalState.Payload.{
  export_pool, state_payload, write_keys, write_one_time_ec_key, write_one_time_pq_key,
}
use pqchat.Client.LocalState.Save.{save_local_state, save_payload}
use pqchat.Client.LocalState.Sealed.{
  derive_state_encryption_key, encrypt_state_payload, encrypt_with_salt, read_state_passphrase,
  seal_payload, wrapped,
}
use pqchat.Client.Refused.{refused_message_blocks}
use pqchat.Client.SendLaws.{after_step}
use pqchat.Client.State.{Client, SessionState}
use pqchat.Client.SyncLaws.{FreshKey, InSync}
use pqchat.Crypto.{sha256}
use pqchat.Crypto.Aead.{nonce_from_counter, open_sealed, seal}
use pqchat.Crypto.Keys.{
  drawn_after, export_private_key, hkdf_sha256, x25519_generate, x25519_shared_secret,
}
use pqchat.Examples.Chatting.Host.{alice, bob, session_at, toy_dh, toy_host, with_session}
use pqchat.Examples.Chatting.Library.{counted_down, toy_cipher, zeros}
use pqchat.Examples.Chatting.Sessions.{hello}
use pqchat.Prelude.{[], ap, arith, bytes_eq, codes, insert, none, refl, some, ℕ, ◌++◌, ◌∷◌, ◌≡◌}
use pqchat.Protocol.Messages.{ChatMessage, from_chat}
use pqchat.Protocol.Serialization.Writer.{write_bytes, write_string, write_u32, write_u8}
use pqchat.Protocol.SignInputs.{build_chat_associated_data}
use pqchat.Result.{err, ok, ok-injective}
use pqchat.Server.InMemory.State.{value_or}

-- A message of the session that both clients hold.
abbrev pub numbered : ℕ → ChatMessage
numbered n = record {
  session_id = counted_down 16;
  from_user = codes "al";
  to_user = codes "bo";
  header = record {
    sender_ratchet_public_key = none;
    previous_chain_length = 0;
    message_number = n;
    flags = 0;
  };
  nonce = nonce_from_counter n;
  ciphertext = hello ++ zeros 16;
}

abbrev pub receiver : ℕ → Client
receiver n = with_session (codes "al") n bob

abbrev sender : ℕ → Client
sender n = with_session (codes "bo") n alice

abbrev received_at : Client × Unit {0}
received_at = (handle_chat_message toy_host (numbered 1) (receiver 1) tt).1

received : handle_chat_message toy_host (numbered 1) (receiver 1) tt ≡ (ok hello, received_at)
unfolding ratchet_to_receive decrypt_chat handle_chat_message derive_key_material
    derive_message_key_and_next_chain decrypt_chain_step sha256 open_sealed nonce_from_counter
    hkdf_sha256 bytes_eq insert build_chat_associated_data ◌>>=◌
received = refl

accepted_once_example :
    (handle_chat_message toy_host (numbered 1) received_at.0 tt).0
    ≡ err "replay or out-of-order message rejected"
accepted_once_example =
    accepted_once toy_host (numbered 1) (receiver 1) tt tt hello received_at (omega arith) received

accepted-InOrder_example : InOrder toy_host (numbered 1) (receiver 1) tt hello received_at
accepted-InOrder_example =
    accepted-InOrder toy_host (numbered 1) (receiver 1) tt hello received_at received

-- It names a key that the peer has never drawn.
abbrev forged : ChatMessage
forged = record (numbered 1) {
  header = record {
    sender_ratchet_public_key = some (5 ∷ []);
    previous_chain_length = 0;
    message_number = 1;
    flags = 1;
  };
}

abbrev moved_to : SessionState
moved_to =
    value_or (session_at 1)
      ((handle_chat_message toy_host forged (receiver 1) tt).1.0.sessions_by_peer (codes "al"))

abbrev waited_for : Stepped
waited_for = record { text = hello; chain_key = counted_down 32 }

in_sync : (n : ℕ) → InSync toy_dh (session_at n) (session_at n)
in_sync n = record {
  same_id = refl;
  root = refl;
  forth = refl;
  back = refl;
  forth_count = refl;
  back_count = refl;
  remote_a = refl;
  remote_b = refl;
  pair_a = tt;
  pair_b = tt;
}

-- The tenth message has a new ratchet key.
abbrev sent_at : Client × Unit {0}
sent_at = (send_message toy_host (codes "bo") hello (sender 10) tt).1

sent : send_message toy_host (codes "bo") hello (sender 10) tt ≡ (ok tt, sent_at)
unfolding read_state_passphrase set_session next_ratchet ratchet_due draft move_send_ratchet
    ratchet_to_send encrypt_chat send_draft send_message derive_key_material
    derive_message_key_and_next_chain derive_ratchet_root_and_chain encrypt_chain_step parent_dir
    fsync_directory ensure_state_dir write_loop commit_file after_loop write_temp
    write_all_file_atomic write_one_time_ec_key write_one_time_pq_key write_keys export_pool
    state_payload save_payload save_local_state derive_state_encryption_key wrapped seal_payload
    encrypt_with_salt encrypt_state_payload sha256 seal nonce_from_counter hkdf_sha256
    x25519_generate x25519_shared_secret export_private_key bytes_eq insert write_u8 write_u32
    write_bytes write_string build_chat_associated_data ◌>>=◌
sent = refl

drawn_new : FreshKey toy_dh tt (session_at 10)
unfolding x25519_generate drawn_after bytes_eq
drawn_new pair after e = rw (← ok-injective (ap (λ o. o.0) e)) refl

send_message-Delivered_example : Delivered toy_dh toy_cipher (sender 10) (receiver 10) hello sent_at
unfolding insert bytes_eq
send_message-Delivered_example =
    send_message-Delivered toy_dh toy_cipher (sender 10) (receiver 10) tt sent_at (session_at 10)
      (session_at 10) hello refl refl (in_sync 10) drawn_new sent

abbrev first_step_of : Stepped
first_step_of = record {
  text = hello ++ zeros 16;
  chain_key =
      (value_or (session_at 0) (
        (send_message toy_host (codes "bo") hello (sender 0) tt).1.0.sessions_by_peer
          (codes "bo"))).send_chain_key;
}

first_encrypted :
    encrypt_chat toy_host
      (draft (codes "al") (codes "bo") (same_ratchet (session_at 0)))
      (session_at 0)
      hello
    ≡ ok first_step_of
unfolding set_session same_ratchet ratchet_due draft sent_session ratchet_to_send encrypt_chat
    send_draft send_message derive_key_material derive_message_key_and_next_chain encrypt_chain_step
    sha256 seal nonce_from_counter hkdf_sha256 bytes_eq insert build_chat_associated_data ◌>>=◌
first_encrypted = refl

abbrev refused_at : Client
refused_at = after_step (codes "bo") first_step_of (same_ratchet (session_at 0)) (sender 0)

abbrev second_at : Client × Unit {0}
second_at = (send_message toy_host (codes "bo") hello refused_at tt).1

second_sent : send_message toy_host (codes "bo") hello refused_at tt ≡ (ok tt, second_at)
unfolding read_state_passphrase set_session same_ratchet ratchet_due draft sent_session
    ratchet_to_send encrypt_chat send_draft send_message derive_key_material
    derive_message_key_and_next_chain encrypt_chain_step parent_dir fsync_directory ensure_state_dir
    write_loop commit_file after_loop write_temp write_all_file_atomic write_one_time_ec_key
    write_one_time_pq_key write_keys export_pool state_payload save_payload save_local_state
    derive_state_encryption_key wrapped seal_payload encrypt_with_salt encrypt_state_payload sha256
    seal nonce_from_counter hkdf_sha256 export_private_key bytes_eq insert write_u8 write_u32
    write_bytes write_string build_chat_associated_data ◌>>=◌
second_sent = refl

refused_message_blocks_example :
    (send_message toy_host (codes "bo") hello (sender 0) tt ≡ (err "refused", (refused_at, tt)))
    × ((message : ChatMessage) × (from : Unit {0}) × (to : Unit {0})
        × (toy_host.server.enqueue_envelope (codes "bo") (from_chat message) from ≡ (ok tt, to))
        × ((handle_chat_message toy_host message (receiver 0) tt).0
            ≡ err "replay or out-of-order message rejected"))
unfolding insert bytes_eq ratchet_due sent_session same_ratchet draft
refused_message_blocks_example =
    refused_message_blocks toy_dh (sender 0) (receiver 0) tt tt tt tt second_at (session_at 0)
      (session_at 0) hello hello first_step_of "refused" refl refl (in_sync 0) refl refl
      (omega arith) first_encrypted refl second_sent
