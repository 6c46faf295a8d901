-- ===== src/Client/PrekeyKept.antt =====
-- The one-time prekeys under the handshake and the messages of src/client/client.cpp.
use pqchat.Client.Accept.{
  Selected, authenticate_initial, check_initial, handle_initial_message, responder_secrets,
}
use pqchat.Client.Act.{
  prefix_act, update, Keeps, Keeps-bind, Keeps-call, Keeps-current, Keeps-found, Keeps-prefix,
  Keeps-require, Keeps-returned, Keeps-update,
}
use pqchat.Client.Chat.{handle_chat_message, send_draft, send_message, set_session}
use pqchat.Client.Handshake.{
  Dh, Offer, check_peer_bundle, complete_handshake, initiate_session, open_and_send, prepare_offer,
  remember_guards, set_guards, sign_handshake,
}
use pqchat.Client.Host.{Host}
use pqchat.Client.Identity.{remember_peer, set_peer, verify_or_remember_peer_identity}
use pqchat.Client.IdentityLaws.{acquaintance, hash_failed, stranger, way}
use pqchat.Client.LocalState.Save.{save}
use pqchat.Client.PrekeyErased.{moved_on, use_prekeys-IdsUnique}
use pqchat.Client.PrekeyLaws.{Unique}
use pqchat.Client.Prekeys.{publish_prekeys}
use pqchat.Client.State.{Client, SessionState}
use pqchat.Prelude.{String, Bytes, refl}
use pqchat.Protocol.PrekeyBundle.{PrekeyBundle}
use pqchat.Protocol.Messages.{ChatMessage, InitialMessage}

module _ {W : Type 0} (host : Host W) where
  pub save-Keeps : (prefix : String) → Keeps Unique (prefix_act prefix (save host))
  save-Keeps prefix = record { keeps = λ c w u. u }

  pub set_session-Keeps :
      (peer : Bytes) (session : SessionState)
      → Keeps (Unique {W = W}) (update (set_session peer session))
  unfolding set_session
  set_session-Keeps peer session = Keeps-update Unique _ (λ c w u. moved_on u refl refl)

  pub remember_guards-Keeps :
      (session_id transcript_hash : Bytes)
      → Keeps Unique (remember_guards host session_id transcript_hash)
  unfolding remember_guards set_guards
  remember_guards-Keeps session_id transcript_hash = record {
    keeps = λ c w u. moved_on u refl refl;
  }

  pub verify_or_remember_peer_identity-Keeps :
      (peer sign mldsa dh : Bytes)
      → Keeps Unique (verify_or_remember_peer_identity host peer sign mldsa dh)
  unfolding remember_peer set_peer
  verify_or_remember_peer_identity-Keeps peer sign mldsa dh = record {
    keeps = λ c w u. elim (way host peer sign mldsa dh c w) [
      | hash_failed text is ↦ rw is u
      | stranger number unknown is ↦ rw is (moved_on u refl refl)
      | acquaintance number known_peer known is ↦ rw is u
    ];
  }

  check_initial-Keeps : (message : InitialMessage) → Keeps Unique (check_initial host message)
  unfolding check_initial
  check_initial-Keeps message = Keeps-bind Unique (Keeps-current Unique) λ client.
      Keeps-bind Unique (Keeps-require Unique _ _) λ _.
        Keeps-bind Unique (Keeps-require Unique _ _) λ _.
          Keeps-bind Unique (Keeps-require Unique _ _) λ _.
            Keeps-bind Unique (Keeps-found Unique _ _) λ selected.
              Keeps-bind Unique (Keeps-require Unique _ _)
                λ _. Keeps-bind Unique (Keeps-require Unique _ _) λ _. Keeps-returned Unique _

  authenticate_initial-Keeps :
      (message : InitialMessage) → Keeps Unique (authenticate_initial host message)
  unfolding authenticate_initial
  authenticate_initial-Keeps message = Keeps-bind Unique (Keeps-current Unique) λ client.
      Keeps-bind Unique (Keeps-returned Unique _) λ hash.
        Keeps-bind Unique (Keeps-require Unique _ _) λ _.
          Keeps-bind Unique (Keeps-returned Unique _) λ _.
            Keeps-bind Unique (Keeps-returned Unique _)
              λ _. verify_or_remember_peer_identity-Keeps _ _ _ _

  responder_secrets-Keeps :
      (client : Client) (message : InitialMessage) (selected : Selected)
      → Keeps Unique (responder_secrets host client message selected)
  unfolding responder_secrets
  responder_secrets-Keeps client message selected =
      Keeps-bind Unique (Keeps-returned Unique _) λ dh1.
        Keeps-bind Unique (Keeps-returned Unique _) λ dh2.
          Keeps-bind Unique (Keeps-returned Unique _) λ dh3.
            Keeps-bind Unique (Keeps-found Unique _ _) λ ec.
              Keeps-bind Unique (Keeps-returned Unique _) λ dh4.
                Keeps-bind Unique (Keeps-returned Unique _) λ kem_spk.
                  Keeps-bind Unique (Keeps-found Unique _ _) λ pq.
                    Keeps-bind Unique (Keeps-returned Unique _) λ kem_opk. Keeps-returned Unique _

  pub handle_initial_message-Keeps :
      (message : InitialMessage) → Keeps Unique (handle_initial_message host message)
  unfolding handle_initial_message
  handle_initial_message-Keeps message = Keeps-bind Unique (check_initial-Keeps message) λ selected.
      Keeps-bind Unique (authenticate_initial-Keeps message) λ _.
        Keeps-bind Unique (Keeps-current Unique) λ client.
          Keeps-bind Unique (responder_secrets-Keeps client message selected) λ secrets.
            Keeps-bind Unique (Keeps-returned Unique _) λ first.
              Keeps-bind Unique (remember_guards-Keeps _ _) λ _.
                Keeps-bind Unique
                  (Keeps-update Unique _ (λ c w u. use_prekeys-IdsUnique selected c u))
                  λ _.
                    Keeps-bind Unique (set_session-Keeps message.from_user first.0)
                      λ _. Keeps-returned Unique _

  pub handle_chat_message-Keeps :
      (message : ChatMessage) → Keeps Unique (handle_chat_message host message)
  unfolding handle_chat_message
  handle_chat_message-Keeps message = Keeps-bind Unique (Keeps-current Unique) λ client.
      Keeps-bind Unique (Keeps-require Unique _ _) λ _.
        Keeps-bind Unique (Keeps-found Unique _ _) λ session.
          Keeps-bind Unique (Keeps-require Unique _ _) λ _.
            Keeps-bind Unique (Keeps-returned Unique _) λ moved.
              Keeps-bind Unique (set_session-Keeps _ _) λ _.
                Keeps-bind Unique (Keeps-require Unique _ _) λ _.
                  Keeps-bind Unique (Keeps-returned Unique _) λ stepped.
                    Keeps-bind Unique (set_session-Keeps _ _) λ _. Keeps-returned Unique _

  send_draft-Keeps :
      (message : ChatMessage) (session : SessionState) (peer plaintext : Bytes)
      → Keeps Unique (send_draft host message session peer plaintext)
  unfolding send_draft
  send_draft-Keeps message session peer plaintext =
      Keeps-bind Unique (Keeps-returned Unique _) λ stepped.
        Keeps-bind Unique (set_session-Keeps _ _)
          λ _. Keeps-bind Unique (Keeps-call Unique _ (λ c w u. u)) λ _. save-Keeps _

  pub send_message-Keeps :
      (peer plaintext : Bytes) → Keeps Unique (send_message host peer plaintext)
  unfolding send_message
  send_message-Keeps peer plaintext = Keeps-bind Unique (Keeps-current Unique) λ client.
      Keeps-bind Unique (Keeps-found Unique _ _) λ session.
        Keeps-bind Unique (Keeps-call Unique _ (λ c w u. u))
          λ out. Keeps-bind Unique (set_session-Keeps _ _) λ _. send_draft-Keeps _ _ _ _

  check_peer_bundle-Keeps :
      (peer : Bytes) (bundle : PrekeyBundle) → Keeps Unique (check_peer_bundle host peer bundle)
  unfolding check_peer_bundle
  check_peer_bundle-Keeps peer bundle = Keeps-bind Unique (Keeps-require Unique _ _) λ _.
      Keeps-bind Unique (Keeps-require Unique _ _) λ _.
        Keeps-bind Unique (Keeps-require Unique _ _) λ _.
          Keeps-bind Unique (Keeps-returned Unique _)
            λ _. verify_or_remember_peer_identity-Keeps _ _ _ _

  prepare_offer-Keeps :
      (peer : Bytes) (bundle : PrekeyBundle) → Keeps Unique (prepare_offer host peer bundle)
  unfolding prepare_offer
  prepare_offer-Keeps peer bundle = Keeps-bind Unique (check_peer_bundle-Keeps peer bundle) λ _.
      Keeps-bind Unique (Keeps-call Unique _ (λ c w u. u)) λ session_id.
        Keeps-bind Unique (Keeps-found Unique _ _) λ ec.
          Keeps-bind Unique (Keeps-found Unique _ _) λ pq.
            Keeps-bind Unique (Keeps-prefix Unique _ (Keeps-call Unique _ (λ c w u. u)))
              λ eph. Keeps-returned Unique _

  sign_handshake-Keeps :
      (client : Client) (hash : Bytes) → Keeps Unique (sign_handshake host client hash)
  unfolding sign_handshake
  sign_handshake-Keeps client hash = Keeps-bind Unique (Keeps-returned Unique _) λ signature.
      Keeps-bind Unique (Keeps-prefix Unique _ (Keeps-call Unique _ (λ c w u. u)))
        λ signature_mldsa. Keeps-returned Unique _

  open_and_send-Keeps :
      (peer : Bytes) (session : SessionState) (message : InitialMessage)
      → Keeps Unique (open_and_send host peer session message)
  unfolding open_and_send
  open_and_send-Keeps peer session message = Keeps-bind Unique (remember_guards-Keeps _ _) λ _.
      Keeps-bind Unique (set_session-Keeps _ _)
        λ _. Keeps-bind Unique (Keeps-call Unique _ (λ c w u. u)) λ _. save-Keeps _

  complete_handshake-Keeps :
      (offer : Offer) (plaintext : Bytes) (dh : Dh)
      → Keeps Unique (complete_handshake host offer plaintext dh)
  unfolding complete_handshake
  complete_handshake-Keeps offer plaintext dh = Keeps-bind Unique (Keeps-current Unique) λ client.
      Keeps-bind Unique (Keeps-prefix Unique _ (Keeps-call Unique _ (λ c w u. u))) λ kem_spk.
        Keeps-bind Unique (Keeps-prefix Unique _ (Keeps-call Unique _ (λ c w u. u))) λ kem_opk.
          Keeps-bind Unique (Keeps-returned Unique _) λ hash.
            Keeps-bind Unique (sign_handshake-Keeps client hash) λ signatures.
              Keeps-bind Unique (Keeps-returned Unique _) λ first. open_and_send-Keeps _ _ _

  pub initiate_session-Keeps :
      (peer plaintext : Bytes) → Keeps Unique (initiate_session host peer plaintext)
  unfolding initiate_session
  initiate_session-Keeps peer plaintext =
      Keeps-bind Unique (Keeps-prefix Unique _ (Keeps-call Unique _ (λ c w u. u))) λ bundle.
        Keeps-bind Unique (prepare_offer-Keeps peer bundle) λ offer.
          Keeps-bind Unique (Keeps-current Unique) λ client.
            Keeps-bind Unique (Keeps-returned Unique _)
              λ dh. complete_handshake-Keeps offer plaintext dh

  pub publish_prekeys-Keeps : Keeps Unique (publish_prekeys host)
  unfolding publish_prekeys
  publish_prekeys-Keeps = Keeps-bind Unique (Keeps-current Unique) λ client.
      Keeps-bind Unique (Keeps-call Unique _ (λ c w u. u)) λ _.
        Keeps-bind Unique (Keeps-update Unique _ (λ c w u. moved_on u refl refl)) λ _. save-Keeps _
