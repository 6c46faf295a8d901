-- ===== src/Client/Chat.antt =====
-- SendMessage and HandleChatMessage of src/client/client.cpp. The server is not null. The session that
-- the source changes in place is written back into the map of sessions after each of its changes.
use pqchat.Client.Act.{
  Act, call, current, found_or, prefix_act, prefix_error, pure, require, returned, update, ◌>>=◌,
  ◌>>◌,
}
use pqchat.Client.Host.{Host}
use pqchat.Client.KeySchedule.{
  RatchetKeys, Stepped, decrypt_chain_step, derive_ratchet_root_and_chain, encrypt_chain_step,
}
use pqchat.Client.LocalState.Save.{save}
use pqchat.Client.State.{Client, SessionState, ratchet_interval}
use pqchat.Crypto.Aead.{nonce_from_counter}
use pqchat.Crypto.Evp.{KeyPair}
use pqchat.Crypto.Keys.{x25519_generate, x25519_shared_secret}
use pqchat.Prelude.{
  Bool, Bytes, Option, [], bit_or, bytes_eq, false, if◌then◌else◌, insert, ltb, none, some, true,
  ◌%◌, ◌&&◌, ◌+◌, ◌==◌, ◌^◌,
}
use pqchat.Protocol.Messages.{ChatMessage, MessageHeader, from_chat}
use pqchat.Protocol.SignInputs.{build_chat_associated_data}
use pqchat.Result.{Result, ok, ◌>>=◌ as and_then}

unfoldable pub set_session : Bytes → SessionState → Client → Client
set_session peer_user session client = record client {
  sessions_by_peer = insert peer_user session client.sessions_by_peer;
}

-- The header and the session once the ratchet of the sender has moved, or not.
pub record Outgoing : Type 0 where
  pub header : MessageHeader
  pub session : SessionState

unfoldable pub same_ratchet : SessionState → Outgoing
same_ratchet session = record {
  header = record {
    sender_ratchet_public_key = none;
    previous_chain_length = 0;
    message_number = session.send_counter;
    flags = 0;
  };
  session = session;
}

unfoldable pub next_ratchet : KeyPair → RatchetKeys → SessionState → Outgoing
next_ratchet pair mixed session = record {
  header = record {
    sender_ratchet_public_key = some pair.public_key;
    previous_chain_length = session.previous_send_chain_length;
    message_number = 0;
    flags = bit_or 0 1;
  };
  session = record session {
    local_ratchet_key = pair;
    send_chain_key = mixed.new_chain;
    root_key = mixed.new_root;
    previous_send_chain_length = session.send_counter;
    send_counter = 0;
  };
}

-- `session.send_counter > 0 && session.send_counter % kRatchetInterval == 0`
unfoldable pub ratchet_due : SessionState → Bool
ratchet_due session = ltb 0 session.send_counter && (session.send_counter % ratchet_interval == 0)

-- Before it is encrypted.
unfoldable pub draft : Bytes → Bytes → Outgoing → ChatMessage
draft user_id peer_user out = record {
  session_id = out.session.session_id;
  from_user = user_id;
  to_user = peer_user;
  header = out.header;
  nonce = nonce_from_counter out.session.send_counter;
  ciphertext = [];
}

unfoldable pub sent_session : Stepped → SessionState → SessionState
sent_session stepped session = record session {
  send_chain_key = stepped.chain_key;
  send_counter = (session.send_counter + 1) % 2 ^ 64;
}

-- The ratchet key of the sender moves the receiving chain.
unfoldable pub received_ratchet : Bytes → RatchetKeys → SessionState → SessionState
received_ratchet new_remote mixed session = record session {
  recv_chain_key = mixed.new_chain;
  root_key = mixed.new_root;
  remote_ratchet_public = new_remote;
  recv_counter = 0;
}

unfoldable pub received_session : Stepped → SessionState → SessionState
received_session stepped session = record session {
  recv_chain_key = stepped.chain_key;
  recv_counter = (session.recv_counter + 1) % 2 ^ 64;
}

module _ {W : Type 0} (host : Host W) where
  unfoldable pub move_send_ratchet : SessionState → W → Result Outgoing × W
  move_send_ratchet session w =
      let (pair, w') = x25519_generate host.openssl host.evp w in
      (
        and_then (prefix_error "ratchet keygen failed: " pair) λ new_pair.
            and_then
              (prefix_error "ratchet DH failed: " (
                x25519_shared_secret host.openssl host.evp new_pair.private_key
                  session.remote_ratchet_public))
              λ dh.
                and_then
                  (prefix_error "ratchet KDF failed: "
                    (derive_ratchet_root_and_chain host dh session.root_key))
                  λ mixed. ok (next_ratchet new_pair mixed session),
        w',
      )

  unfoldable pub ratchet_to_send : SessionState → W → Result Outgoing × W
  ratchet_to_send session w = elim (ratchet_due session) [
    | true ↦ move_send_ratchet session w
    | false ↦ (ok (same_ratchet session), w)
  ]

  -- `BuildChatAssociatedData`, then the chain step.
  unfoldable pub encrypt_chat : ChatMessage → SessionState → Bytes → Result Stepped
  encrypt_chat message session plaintext =
      and_then (prefix_error "chat AD failed: " (build_chat_associated_data host.openssl message))
        λ ad. prefix_error "message encryption failed: " (
          encrypt_chain_step host session.send_chain_key session.send_counter message.nonce
            plaintext ad)

  unfoldable pub send_draft : ChatMessage → SessionState → Bytes → Bytes → Act W (Unit {0})
  send_draft message session peer_user plaintext = do
    stepped ← returned (encrypt_chat message session plaintext)
    update (set_session peer_user (sent_session stepped session))
    call (
        host.server.enqueue_envelope peer_user
          (from_chat (record message { ciphertext = stepped.text })))
    prefix_act "persist local state failed: " (save host)

  unfoldable pub send_message : Bytes → Bytes → Act W (Unit {0})
  send_message peer_user plaintext = do
    client ← current
    session ← found_or "no active session with peer" (client.sessions_by_peer peer_user)
    out ← call (ratchet_to_send session)
    update (set_session peer_user out.session)
    send_draft (draft client.user_id peer_user out) out.session peer_user plaintext

  unfoldable pub move_recv_ratchet : Bytes → SessionState → Result SessionState
  move_recv_ratchet new_remote session =
      and_then
        (prefix_error "ratchet DH failed: " (
          x25519_shared_secret host.openssl host.evp session.local_ratchet_key.private_key
            new_remote))
        λ dh.
          and_then
            (prefix_error "ratchet KDF failed: "
              (derive_ratchet_root_and_chain host dh session.root_key))
            λ mixed. ok (received_ratchet new_remote mixed session)

  unfoldable pub ratchet_to_receive : Option Bytes → SessionState → Result SessionState
  ratchet_to_receive none session = ok session
  ratchet_to_receive (some new_remote) session =
      if bytes_eq new_remote session.remote_ratchet_public
      then ok session
      else move_recv_ratchet new_remote session

  unfoldable pub decrypt_chat : ChatMessage → SessionState → Result Stepped
  decrypt_chat message session =
      and_then (prefix_error "chat AD failed: " (build_chat_associated_data host.openssl message))
        λ ad. prefix_error "chat decrypt failed: " (
          decrypt_chain_step host session.recv_chain_key session.recv_counter message.nonce
            message.ciphertext ad)

  -- The text that it pushes on `plaintext_out`.
  unfoldable pub handle_chat_message : ChatMessage → Act W Bytes
  handle_chat_message message = do
    client ← current
    require (bytes_eq message.to_user client.user_id) "chat message recipient mismatch"
    session ←
        found_or "no session for incoming chat message" (client.sessions_by_peer message.from_user)
    require (bytes_eq session.session_id message.session_id) "session id mismatch"
    moved ← returned (ratchet_to_receive message.header.sender_ratchet_public_key session)
    update (set_session message.from_user moved)
    require (message.header.message_number == moved.recv_counter)
        "replay or out-of-order message rejected"
    stepped ← returned (decrypt_chat message moved)
    update (set_session message.from_user (received_session stepped moved))
    pure stepped.text
