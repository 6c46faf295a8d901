-- ===== src/Client/Delivered.antt =====
-- A message of SendMessage that arrives at HandleChatMessage of src/client/client.cpp.
use pqchat.Client.Act.{prefix_error, prefixed-ok}
use pqchat.Client.Chat.{
  Outgoing, decrypt_chat, draft, encrypt_chat, handle_chat_message, move_send_ratchet, ratchet_due,
  ratchet_to_send, received_session, same_ratchet, send_message, sent_session, set_session,
}
use pqchat.Client.ChatLaws.{in_order_accepted, ratchet_again}
use pqchat.Client.Host.{Host}
use pqchat.Client.KeySchedule.{Stepped}
use pqchat.Client.ScheduleLaws.{decrypt_chain_step-encrypt_chain_step}
use pqchat.Client.SendLaws.{sealed_with, send_message-Sent}
use pqchat.Client.State.{Client, SessionState}
use pqchat.Client.SyncLaws.{Followed, FreshKey, InSync, IsX25519, Followed-next, Followed-same}
use pqchat.Crypto.{OpenSsl}
use pqchat.Crypto.AeadLaws.{IsCipher}
use pqchat.Prelude.{
  ==_iff, Bool, Bytes, ap, bytes_eq_refl, false, insert_self, refl, some, some-injective, subst,
  sym, true, ◌%◌, ◌+◌, ◌^◌, ◌∙◌, ◌≡◌,
}
use pqchat.Protocol.Messages.{ChatMessage, from_chat}
use pqchat.Protocol.SignInputs.{build_chat_associated_data, chat_associated_data}
use pqchat.Result.{>>=-eq-ok, Result, ok, ok-injective}

-- The associated data leaves out the ciphertext.
same_ad :
    (o : OpenSsl) (message : ChatMessage) (stepped : Stepped)
    → build_chat_associated_data o (sealed_with stepped message)
      ≡ build_chat_associated_data o message
unfolding build_chat_associated_data chat_associated_data
same_ad o message stepped = refl

-- What the receiver's step returns.
abbrev pub opened : Bytes → Stepped → Stepped
opened plaintext stepped = record { text = plaintext; chain_key = stepped.chain_key }

module _ {W : Type 0} {host : Host W} (dh : IsX25519 host) (cipher : IsCipher host.evp) where
  decrypt_chat-encrypt_chat :
      (message : ChatMessage) (a b : SessionState) (plaintext : Bytes) (stepped : Stepped)
      → InSync dh a b
      → encrypt_chat host message a plaintext ≡ ok stepped
      → decrypt_chat host (sealed_with stepped message) b ≡ ok (opened plaintext stepped)
  unfolding encrypt_chat decrypt_chat
  decrypt_chat-encrypt_chat message a b plaintext stepped i e =
      let (ad, e1, r1) =
        >>=-eq-ok
          (prefix_error "chat AD failed: " (build_chat_associated_data host.openssl message)) _ e in
      let step =
        decrypt_chain_step-encrypt_chain_step host a.send_chain_key a.send_counter message.nonce
          plaintext ad stepped cipher (prefixed-ok "message encryption failed: " _ r1) in
      rw
        (
          same_ad host.openssl message stepped,
          prefixed-ok "chat AD failed: " _ e1,
          ← i.forth,
          ← i.forth_count,
          step,
        )
        refl

  stepped-InSync :
      (a b : SessionState) (plaintext : Bytes) (stepped : Stepped)
      → InSync dh a b
      → InSync dh (sent_session stepped a) (received_session (opened plaintext stepped) b)
  unfolding sent_session received_session
  stepped-InSync a b plaintext stepped i = record {
    same_id = i.same_id;
    root = i.root;
    forth = refl;
    back = i.back;
    forth_count = ap (λ n. (n + 1) % 2 ^ 64) i.forth_count;
    back_count = i.back_count;
    remote_a = i.remote_a;
    remote_b = i.remote_b;
    pair_a = i.pair_a;
    pair_b = i.pair_b;
  }

  followed :
      (a b : SessionState) (w between : W) (out : Outgoing)
      → InSync dh a b
      → FreshKey dh w b
      → ratchet_to_send host a w ≡ (ok out, between)
      → Followed dh a b out
  unfolding ratchet_to_send
  followed a b w between out i fresh e = go (ratchet_due a) e
    where
      go :
          (due : Bool)
          → ◌≡◌ {A = Result Outgoing × W}
              (elim due [ true ↦ move_send_ratchet host a w | false ↦ (ok (same_ratchet a), w) ])
              (ok out, between)
          → Followed dh a b out
      go true e = Followed-next dh a b w between out i fresh e
      go false e = subst (Followed dh a b) (ok-injective (ap (λ o. o.0) e)) (Followed-same dh a b i)

  -- A message is in the queue, the receiver reads the plaintext from it whenever it takes it, and both
  -- sessions belong together again.
  pub record Delivered (alice bob : Client) (plaintext : Bytes) (s : Client × W) : Type 0 where
    pub message : ChatMessage
    pub sent_from : W
    pub queued : W
    pub enqueued :
        host.server.enqueue_envelope bob.user_id (from_chat message) sent_from ≡ (ok tt, queued)
    pub bob_after : Client
    pub read :
        (later : W)
        → handle_chat_message host message bob later ≡ (ok plaintext, (bob_after, later))
    pub alice_session : SessionState
    pub bob_session : SessionState
    pub alice_has : s.0.sessions_by_peer bob.user_id ≡ some alice_session
    pub bob_has : bob_after.sessions_by_peer alice.user_id ≡ some bob_session
    pub sync : InSync dh alice_session bob_session

  -- While the sessions of two clients belong together, a message that one of them sends with success is
  -- put into the other's inbox, the other decrypts it to what was sent, and the sessions belong together
  -- again: with the ratchet of the tenth message as without, if the key drawn for it is a new one.
  pub send_message-Delivered :
      (alice bob : Client) (w : W) (s : Client × W) (a b : SessionState) (plaintext : Bytes)
      → alice.sessions_by_peer bob.user_id ≡ some a
      → bob.sessions_by_peer alice.user_id ≡ some b
      → InSync dh a b
      → FreshKey dh w b
      → send_message host bob.user_id plaintext alice w ≡ (ok tt, s)
      → Delivered alice bob plaintext s
  unfolding draft set_session
  send_message-Delivered alice bob w s a b plaintext has_a has_b i fresh e =
      let sent = send_message-Sent host bob.user_id plaintext alice w s e in
      let same : sent.before ≡ a = some-injective (sym sent.found ∙ has_a) in
      let f = followed a b w sent.between sent.out i fresh (rw (← same) sent.ratchet) in
      let message = sealed_with sent.stepped (draft alice.user_id bob.user_id sent.out) in
      let moved = received_session (opened plaintext sent.stepped) f.moved in
      record {
        message = message;
        sent_from = sent.between;
        queued = sent.queued;
        enqueued = sent.enqueued;
        bob_after = set_session alice.user_id moved (set_session alice.user_id f.moved bob);
        read = λ later.
            in_order_accepted host message bob later b f.moved (bytes_eq_refl bob.user_id) has_b
              (rw
                (
                  f.sync.same_id,
                  (ratchet_again host sent.out.header.sender_ratchet_public_key b f.moved
                      sent.stepped f.follows).1,
                )
                (bytes_eq_refl b.session_id))
              f.follows (opened plaintext sent.stepped)
              ((==_iff _ _).1 (f.number ∙ f.sync.forth_count))
              (decrypt_chat-encrypt_chat (draft alice.user_id bob.user_id sent.out) sent.out.session
                f.moved plaintext sent.stepped f.sync sent.encrypted);
        alice_session = sent_session sent.stepped sent.out.session;
        bob_session = moved;
        alice_has = rw sent.left (insert_self bob.user_id _ _);
        bob_has = insert_self alice.user_id moved _;
        sync = stepped-InSync sent.out.session f.moved plaintext sent.stepped f.sync;
      }
