-- ===== src/Client/ChatSafety.antt =====
-- Replays and forged ratchet keys: HandleChatMessage of src/client/client.cpp.
use pqchat.Client.Chat.{
  decrypt_chat, handle_chat_message, move_recv_ratchet, ratchet_to_receive, received_ratchet,
  received_session, set_session,
}
use pqchat.Client.ChatLaws.{
  handle_chat_message-Received, move_recv_ratchet-moved, out_of_order_rejected, ratchet_again,
}
use pqchat.Client.Host.{Host}
use pqchat.Client.KeySchedule.{Stepped}
use pqchat.Client.State.{Client, SessionState}
use pqchat.Prelude.{
  ==_iff, Bool, Bytes, Option, if◌then◌else◌, sym, ℕ, ap, arith, bytes_eq, bytes_eq_sound, false,
  insert_self, none, refl, some, true, ◌%◌, ◌+◌, ◌<◌, ◌^◌, ◌∙◌, ◌≡◌,
}
use pqchat.Protocol.Messages.{ChatMessage}
use pqchat.Result.{err, ok, ok-injective}

-- The number that is received next, once the ratchet has followed the key that the message names.
abbrev pub next_number : Option Bytes → SessionState → ℕ
next_number none session = session.recv_counter
next_number (some key) session =
    if bytes_eq key session.remote_ratchet_public then session.recv_counter else 0

module _ {W : Type 0} (host : Host W) where
  -- The session before a message and after it, and the step of the receiving chain that gave the text.
  pub record InOrder (message : ChatMessage) (c : Client) (w : W) (text : Bytes) (s : Client × W)
      : Type 0 where
    pub before : SessionState
    pub moved : SessionState
    pub after : SessionState
    pub stepped : Stepped
    pub found : c.sessions_by_peer message.from_user ≡ some before
    pub session : before.session_id ≡ message.session_id
    pub in_turn :
        message.header.message_number ≡ next_number message.header.sender_ratchet_public_key before
    pub follows : ratchet_to_receive host message.header.sender_ratchet_public_key before ≡ ok moved
    pub decrypted : decrypt_chat host message moved ≡ ok stepped
    pub text_of : text ≡ stepped.text
    pub stored : s.0.sessions_by_peer message.from_user ≡ some after
    pub chain : after.recv_chain_key ≡ stepped.chain_key
    pub next : after.recv_counter ≡ (message.header.message_number + 1) % 2 ^ 64
    pub kept : after.session_id ≡ message.session_id
    pub world : s.1 ≡ w

  moved-next_number :
      (key : Option Bytes) (before moved : SessionState)
      → ratchet_to_receive host key before ≡ ok moved
      → moved.recv_counter ≡ next_number key before
  unfolding ratchet_to_receive received_ratchet
  moved-next_number none before moved e = ap (λ x. x.recv_counter) (sym (ok-injective e))
  moved-next_number (some key) before moved e = go (bytes_eq key before.remote_ratchet_public) e
    where
      go :
          (same : Bool)
          → (if same then ok before else move_recv_ratchet host key before) ≡ ok moved
          → moved.recv_counter ≡ (if same then before.recv_counter else 0)
      go true h = ap (λ x. x.recv_counter) (sym (ok-injective h))
      go false h = let (mixed, is) = move_recv_ratchet-moved host key before moved h in rw is refl

  -- A message is accepted only in its turn: the client held a session with its sender under its session
  -- id, its number was the one that is received next on the chain in use (or 0 on the chain of a new
  -- ratchet key that it names), and its text is what that chain decrypts it to. Afterwards the chain has
  -- stepped and waits for the number that follows in 64 bits.
  pub accepted-InOrder :
      (message : ChatMessage) (c : Client) (w : W) (text : Bytes) (s : Client × W)
      → handle_chat_message host message c w ≡ (ok text, s)
      → InOrder message c w text s
  unfolding set_session received_session
  accepted-InOrder message c w text s e =
      let r = handle_chat_message-Received host message c w text s e in
      let key = message.header.sender_ratchet_public_key in
      let again = ratchet_again host key r.before r.moved r.stepped r.ratchet in
      let number = (==_iff message.header.message_number r.moved.recv_counter).0 r.in_order in
      let session = bytes_eq_sound r.before.session_id message.session_id r.same_session in
      record {
        before = r.before;
        moved = r.moved;
        after = received_session r.stepped r.moved;
        stepped = r.stepped;
        found = r.found;
        session = session;
        in_turn = number ∙ moved-next_number key r.before r.moved r.ratchet;
        follows = r.ratchet;
        decrypted = r.decrypted;
        text_of = r.text_of;
        stored = rw r.left (insert_self message.from_user _ _);
        chain = refl;
        next = rw number refl;
        kept = again.1 ∙ session;
        world = rw r.left refl;
      }

  -- A message that was accepted is rejected when it arrives again, whatever the surroundings are then, as
  -- long as its number is not the last of 64 bits.
  pub accepted_once :
      (message : ChatMessage) (c : Client) (w later : W) (text : Bytes) (s : Client × W)
      → message.header.message_number + 1 < 2 ^ 64
      → handle_chat_message host message c w ≡ (ok text, s)
      → (handle_chat_message host message s.0 later).0
        ≡ err "replay or out-of-order message rejected"
  unfolding set_session received_session
  accepted_once message c w later text s small e =
      let r = handle_chat_message-Received host message c w text s e in
      let again =
        ratchet_again host message.header.sender_ratchet_public_key r.before r.moved r.stepped
          r.ratchet in
      let number = (==_iff message.header.message_number r.moved.recv_counter).0 r.in_order in
      rw r.left (
        ap (λ o. o.0)
          (out_of_order_rejected host message
            (set_session message.from_user (received_session r.stepped r.moved)
              (set_session message.from_user r.moved c))
            later (received_session r.stepped r.moved) (received_session r.stepped r.moved)
            r.recipient (insert_self message.from_user _ _) (rw again.1 r.same_session) again.0
            (ground arith)))
