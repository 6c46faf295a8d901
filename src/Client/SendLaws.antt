-- ===== src/Client/SendLaws.antt =====
-- What SendMessage of src/client/client.cpp sends, and the session that it leaves.
use pqchat.Client.Act.{
  call-passed, current-passed, found-passed, prefix_act, prefix_error, returned-passed,
  update-passed, ◌>>=◌,
}
use pqchat.Client.Chat.{
  Outgoing, draft, encrypt_chat, ratchet_to_send, send_draft, send_message, sent_session,
  set_session,
}
use pqchat.Client.Host.{Host}
use pqchat.Client.KeySchedule.{Stepped}
use pqchat.Client.LocalState.Save.{save, save_local_state}
use pqchat.Client.State.{Client, SessionState}
use pqchat.Prelude.{Bytes, String, refl, some, ◌≡◌}
use pqchat.Protocol.Messages.{ChatMessage, from_chat}
use pqchat.Result.{Result, err, ok}

-- The message with what the chain step returned.
abbrev pub sealed_with : Stepped → ChatMessage → ChatMessage
sealed_with stepped message = record message { ciphertext = stepped.text }

-- The client once a message is encrypted.
abbrev pub after_step : Bytes → Stepped → Outgoing → Client → Client
after_step peer_user stepped out c =
    set_session peer_user (sent_session stepped out.session) (set_session peer_user out.session c)

module _ {W : Type 0} (host : Host W) where
  pub saved-passed :
      (prefix : String) (c : Client) (w : W) (s : Client × W)
      → prefix_act prefix (save host) c w ≡ (ok tt, s)
      → s.0 ≡ c
  saved-passed prefix c w s e = go (save_local_state host c w) e
    where
      go :
          (o : Result (Unit {0}) × W)
          → ◌≡◌ {A = Result (Unit {0}) × (Client × W)}
              (prefix_error prefix o.0, (c, o.1))
              (ok tt, s)
          → s.0 ≡ c
      go (err text, w') e = cc
      go (ok _, w') e = cc

  pub record Sent (peer_user plaintext : Bytes) (c : Client) (w : W) (s : Client × W) : Type 0 where
    pub before : SessionState
    pub out : Outgoing
    pub stepped : Stepped
    pub between : W
    pub queued : W
    pub found : c.sessions_by_peer peer_user ≡ some before
    pub ratchet : ratchet_to_send host before w ≡ (ok out, between)
    pub encrypted :
        encrypt_chat host (draft c.user_id peer_user out) out.session plaintext ≡ ok stepped
    pub enqueued :
        host.server.enqueue_envelope peer_user
          (from_chat (sealed_with stepped (draft c.user_id peer_user out)))
          between
        ≡ (ok tt, queued)
    pub left : s.0 ≡ after_step peer_user stepped out c

  pub send_message-Sent :
      (peer_user plaintext : Bytes) (c : Client) (w : W) (s : Client × W)
      → send_message host peer_user plaintext c w ≡ (ok tt, s)
      → Sent peer_user plaintext c w s
  unfolding send_message send_draft
  send_message-Sent peer_user plaintext c w s e =
      let (before, found, e1) = found-passed _ _ _ (current-passed _ e) in
      let (out, between, ratchet, e2) = call-passed _ _ e1 in
      let (stepped, encrypted, e3) = returned-passed _ _ (update-passed _ _ e2) in
      let (_, queued, enqueued, e4) = call-passed _ _ (update-passed _ _ e3) in
      record {
        before = before;
        out = out;
        stepped = stepped;
        between = between;
        queued = queued;
        found = found;
        ratchet = ratchet;
        encrypted = encrypted;
        enqueued = enqueued;
        left = saved-passed "persist local state failed: " _ queued s e4;
      }

  -- The session moves on also where the server refuses the message: the error is returned, but the number
  -- and the chain key of the message are used up.
  pub refused_message_counts :
      (peer_user plaintext : Bytes) (c : Client) (w between queued : W) (before : SessionState)
      (out : Outgoing) (stepped : Stepped) (text : String)
      → c.sessions_by_peer peer_user ≡ some before
      → ratchet_to_send host before w ≡ (ok out, between)
      → encrypt_chat host (draft c.user_id peer_user out) out.session plaintext ≡ ok stepped
      → host.server.enqueue_envelope peer_user
          (from_chat (sealed_with stepped (draft c.user_id peer_user out)))
          between
        ≡ (err text, queued)
      → send_message host peer_user plaintext c w
        ≡ (err text, (after_step peer_user stepped out c, queued))
  unfolding send_message send_draft ◌>>=◌
  refused_message_counts peer_user plaintext c w between queued before out stepped text found
        ratchet encrypted refused =
      rw (found, ratchet, encrypted, refused) refl
