-- ===== src/Client/OpenLaws.antt =====
-- The whole of HandleInitialMessage of src/client/client.cpp, and the same message again.
use pqchat.Client.Accept.{
  Selected, authenticate_initial, check_initial, first_received, handle_initial_message,
  responder_secrets, use_prekeys,
}
use pqchat.Client.AcceptLaws.{
  Agreed, Authenticated, Checked, authenticate_initial-Authenticated, check_initial-Checked,
  responder_secrets-Agreed,
}
use pqchat.Client.Act.{
  >>=-Passed, current-passed, pure-passed, returned-passed, unchanged-passed, update-passed, ◌>>=◌,
}
use pqchat.Client.Chat.{set_session}
use pqchat.Client.GuardSafety.{GuardsAgree, remembered_iff}
use pqchat.Client.Handshake.{SharedSecrets, remember_guards, set_guards}
use pqchat.Client.Host.{Host}
use pqchat.Client.KeySchedule.{Stepped}
use pqchat.Client.ReplayGuards.{has_seen_initial_replay_guard, remember_initial_replay_guards}
use pqchat.Client.State.{Client, SessionState}
use pqchat.Prelude.{Bytes, ap, refl, sym, true, ◌∙◌, ◌≡◌}
use pqchat.Protocol.Messages.{InitialMessage}
use pqchat.Result.{err, ok}

module _ {W : Type 0} (host : Host W) where
  -- The client once both prekeys are used up and the session is stored.
  abbrev opened_client : InitialMessage → Selected → SessionState → Client → Client
  opened_client message selected session c = set_session message.from_user session (
      use_prekeys selected (
        set_guards
          (remember_initial_replay_guards message.session_id message.transcript_hash c.guards).1 c))

  pub record Opened (message : InitialMessage) (c : Client) (w : W) (text : Bytes) (s : Client × W)
      : Type 0 where
    pub selected : Selected
    pub secrets : SharedSecrets
    pub session : SessionState
    pub stepped : Stepped
    pub checks : Checked host message c selected
    pub authenticated : Authenticated host message c
    pub agreed : Agreed host message c selected secrets
    pub received : first_received host c message secrets ≡ ok (session, stepped)
    pub new :
        (remember_initial_replay_guards message.session_id message.transcript_hash c.guards).0
        ≡ ok tt
    pub text_of : text ≡ stepped.text
    pub left : s ≡ (opened_client message selected session c, w)

  remembered :
      (session_id transcript_hash : Bytes) (c : Client) (w : W) (s : Client × W)
      → remember_guards host session_id transcript_hash c w ≡ (ok tt, s)
      → ((remember_initial_replay_guards session_id transcript_hash c.guards).0 ≡ ok tt)
        × (s ≡ (
          set_guards (remember_initial_replay_guards session_id transcript_hash c.guards).1 c,
          w,
        ))
  unfolding remember_guards
  remembered session_id transcript_hash c w s e = (ap (λ o. o.0) e, sym (ap (λ o. o.1) e))

  -- What is true of a first message that was accepted, and what it leaves: the checks, both signatures on
  -- the transcript of the recipient's own keys, an identity that was verified before, one-time prekeys
  -- that were in the pools and are used up, a session id and a transcript that were not seen before.
  pub handle_initial_message-Opened :
      (message : InitialMessage) (c : Client) (w : W) (text : Bytes) (s : Client × W)
      → handle_initial_message host message c w ≡ (ok text, s)
      → Opened message c w text s
  unfolding handle_initial_message
  handle_initial_message-Opened message c w text s e =
      let (selected, checks, e1) =
        unchanged-passed (Checked host message c) (check_initial host message) _
          (check_initial-Checked host message c w) e in
      let (_, authenticated, e2) =
        unchanged-passed (λ _. Authenticated host message c) (authenticate_initial host message) _
          (λ _. authenticate_initial-Authenticated host message c w) e1 in
      let (secrets, agreed, e3) =
        unchanged-passed (Agreed host message c selected)
          (responder_secrets host c message selected) _
          (responder_secrets-Agreed host message c w selected) (current-passed _ e2) in
      let (first, received, e4) = returned-passed _ _ e3 in
      let p =
        >>=-Passed (remember_guards host message.session_id message.transcript_hash) _ c w e4 in
      let (new, here) =
        remembered message.session_id message.transcript_hash c w p.between p.first in
      let (text_of, left) = pure-passed _ (update-passed _ _ (update-passed _ _ p.second)) in
      record {
        selected = selected;
        secrets = secrets;
        session = first.0;
        stepped = first.1;
        checks = checks;
        authenticated = authenticated;
        agreed = agreed;
        received = received;
        new = new;
        text_of = text_of;
        left =
            left
            ∙ ap
                (λ (t : Client × W).
                  (set_session message.from_user first.0 (use_prekeys selected t.0), t.1))
                here;
      }

  seen_rejected :
      (message : InitialMessage) (c d : Client) (w : W) (selected : Selected)
      → Checked host message c selected
      → d.user_id ≡ c.user_id
      → has_seen_initial_replay_guard message.session_id message.transcript_hash d.guards ≡ true
      → handle_initial_message host message d w
        ≡ (err "duplicate initial handshake rejected", (d, w))
  unfolding handle_initial_message check_initial ◌>>=◌
  seen_rejected message c d w selected checks same_user seen =
      rw (same_user, checks.recipient, checks.version, checks.suite, checks.selects, seen) refl

  -- A first message that was accepted, by a client whose sets of seen handshakes are what their orders list
  -- (GuardsAgree), is rejected when it arrives again in the state that this left: nothing of the client
  -- changes.
  pub duplicate_handshake_rejected :
      (message : InitialMessage) (c : Client) (w later : W) (text : Bytes) (s : Client × W)
      → GuardsAgree c.guards
      → handle_initial_message host message c w ≡ (ok text, s)
      → handle_initial_message host message s.0 later
        ≡ (err "duplicate initial handshake rejected", (s.0, later))
  unfolding set_session use_prekeys set_guards
  duplicate_handshake_rejected message c w later text s agree e =
      let o = handle_initial_message-Opened message c w text s e in
      seen_rejected message c s.0 later o.selected o.checks (rw o.left refl)
        (rw o.left (remembered_iff message.session_id message.transcript_hash c.guards agree).1)
