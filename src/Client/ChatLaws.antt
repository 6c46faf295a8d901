-- ===== src/Client/ChatLaws.antt =====
-- What HandleChatMessage of src/client/client.cpp accepts, and what it leaves.
use pqchat.Client.Act.{
  current-passed, found-passed, prefix_error, pure-passed, require-passed, returned-passed,
  update-passed, ◌>>=◌,
}
use pqchat.Client.Chat.{
  decrypt_chat, handle_chat_message, move_recv_ratchet, ratchet_to_receive, received_ratchet,
  received_session, set_session,
}
use pqchat.Client.Host.{Host}
use pqchat.Client.KeySchedule.{RatchetKeys, Stepped, derive_ratchet_root_and_chain}
use pqchat.Client.State.{Client, SessionState}
use pqchat.Crypto.Keys.{x25519_shared_secret}
use pqchat.Prelude.{
  Bool-cases, Bytes, Option, ap, bytes_eq, bytes_eq_refl, false, if◌then◌else◌, inl, inr, none,
  refl, some, subst, sym, true, ◌==◌, ◌≡◌,
}
use pqchat.Protocol.Messages.{ChatMessage}
use pqchat.Result.{>>=-eq-ok, err, ok, ok-injective}

module _ {W : Type 0} (host : Host W) where
  -- What is true of a message that was accepted, and of the session that it leaves.
  pub record Received (message : ChatMessage) (c : Client) (w : W) (text : Bytes) (s : Client × W)
      : Type 0 where
    pub before : SessionState
    pub moved : SessionState
    pub stepped : Stepped
    pub recipient : bytes_eq message.to_user c.user_id ≡ true
    pub found : c.sessions_by_peer message.from_user ≡ some before
    pub same_session : bytes_eq before.session_id message.session_id ≡ true
    pub ratchet : ratchet_to_receive host message.header.sender_ratchet_public_key before ≡ ok moved
    pub in_order : (message.header.message_number == moved.recv_counter) ≡ true
    pub decrypted : decrypt_chat host message moved ≡ ok stepped
    pub text_of : text ≡ stepped.text
    pub left : s ≡ (
      set_session message.from_user
          (received_session stepped moved)
          (set_session message.from_user moved c),
      w,
    )

  pub handle_chat_message-Received :
      (message : ChatMessage) (c : Client) (w : W) (text : Bytes) (s : Client × W)
      → handle_chat_message host message c w ≡ (ok text, s)
      → Received message c w text s
  unfolding handle_chat_message
  handle_chat_message-Received message c w text s e =
      let (recipient, e1) = require-passed _ _ _ (current-passed _ e) in
      let (before, found, e2) = found-passed _ _ _ e1 in
      let (same, e3) = require-passed _ _ _ e2 in
      let (moved, ratchet, e4) = returned-passed _ _ e3 in
      let (in_order, e5) = require-passed _ _ _ (update-passed _ _ e4) in
      let (stepped, decrypted, e6) = returned-passed _ _ e5 in
      let last = pure-passed _ (update-passed _ _ e6) in
      record {
        before = before;
        moved = moved;
        stepped = stepped;
        recipient = recipient;
        found = found;
        same_session = same;
        ratchet = ratchet;
        in_order = in_order;
        decrypted = decrypted;
        text_of = last.0;
        left = last.1;
      }

  -- The chain of checks forwards.
  module _ (message : ChatMessage) (c : Client) (w : W) (before moved : SessionState)
      (recipient : bytes_eq message.to_user c.user_id ≡ true)
      (found : c.sessions_by_peer message.from_user ≡ some before)
      (same_session : bytes_eq before.session_id message.session_id ≡ true)
      (ratchet : ratchet_to_receive host message.header.sender_ratchet_public_key before
        ≡ ok moved) where
    pub out_of_order_rejected :
        (message.header.message_number == moved.recv_counter) ≡ false
        → handle_chat_message host message c w ≡ (
          err "replay or out-of-order message rejected",
          (set_session message.from_user moved c, w),
        )
    unfolding handle_chat_message ◌>>=◌
    out_of_order_rejected wrong = rw (recipient, found, same_session, ratchet, wrong) refl

    pub in_order_accepted :
        (stepped : Stepped)
        → (message.header.message_number == moved.recv_counter) ≡ true
        → decrypt_chat host message moved ≡ ok stepped
        → handle_chat_message host message c w ≡ (
          ok stepped.text,
          (
            set_session message.from_user
                (received_session stepped moved)
                (set_session message.from_user moved c),
            w,
          ),
        )
    unfolding handle_chat_message ◌>>=◌
    in_order_accepted stepped in_order decrypted =
        rw (recipient, found, same_session, ratchet, in_order, decrypted) refl

  pub move_recv_ratchet-moved :
      (key : Bytes) (before moved : SessionState)
      → move_recv_ratchet host key before ≡ ok moved
      → (mixed : RatchetKeys) × (moved ≡ received_ratchet key mixed before)
  unfolding move_recv_ratchet
  move_recv_ratchet-moved key before moved e =
      let (dh, e1, r1) =
        >>=-eq-ok
          (prefix_error "ratchet DH failed: "
            (x25519_shared_secret host.openssl host.evp before.local_ratchet_key.private_key key))
          _ e in
      let (mixed, e2, r2) =
        >>=-eq-ok
          (prefix_error "ratchet KDF failed: "
            (derive_ratchet_root_and_chain host dh before.root_key))
          _ r1 in
      (mixed, sym (ok-injective r2))

  -- The ratchet moves once for a key.
  pub ratchet_again :
      (key : Option Bytes) (before moved : SessionState) (stepped : Stepped)
      → ratchet_to_receive host key before ≡ ok moved
      → (ratchet_to_receive host key (received_session stepped moved)
          ≡ ok (received_session stepped moved))
        × (moved.session_id ≡ before.session_id)
  unfolding ratchet_to_receive move_recv_ratchet received_ratchet received_session
  ratchet_again none before moved stepped e = (refl, ap (λ s. s.session_id) (sym (ok-injective e)))
  ratchet_again (some key) before moved stepped e =
      elim (Bool-cases (bytes_eq key before.remote_ratchet_public)) [
        | inl same ↦
            let stays : before ≡ moved = ok-injective (
              subst (λ b. (if b then ok before else move_recv_ratchet host key before) ≡ ok moved)
                same e) in
            (rw (← stays, same) refl, ap (λ s. s.session_id) (sym stays))
        | inr new ↦
            let (mixed, is) = move_recv_ratchet-moved key before moved (
              subst (λ b. (if b then ok before else move_recv_ratchet host key before) ≡ ok moved)
                new e) in
            (rw (is, bytes_eq_refl key) refl, ap (λ s. s.session_id) is)
      ]
