-- ===== src/Client/Refused.antt =====
-- A message that the server did not take: SendMessage of src/client/client.cpp, and the message after it.
use pqchat.Client.Chat.{
  draft, encrypt_chat, handle_chat_message, ratchet_due, ratchet_to_receive, ratchet_to_send,
  same_ratchet, send_message, sent_session, set_session,
}
use pqchat.Client.ChatLaws.{out_of_order_rejected}
use pqchat.Client.Host.{Host}
use pqchat.Client.KeySchedule.{Stepped}
use pqchat.Client.SendLaws.{after_step, refused_message_counts, sealed_with, send_message-Sent}
use pqchat.Client.State.{Client, SessionState}
use pqchat.Client.SyncLaws.{InSync, IsX25519}
use pqchat.Prelude.{
  Bytes, String, ap, arith, bytes_eq_refl, false, insert_self, refl, some, some-injective, sym, ◌+◌,
  ◌<◌, ◌^◌, ◌∙◌, ◌≡◌,
}
use pqchat.Protocol.Messages.{ChatMessage, from_chat}
use pqchat.Result.{err, ok, ok-injective}

module _ {W : Type 0} {host : Host W} (dh : IsX25519 host) where
  quiet_ratchet :
      (a : SessionState) (w : W)
      → ratchet_due a ≡ false
      → ratchet_to_send host a w ≡ (ok (same_ratchet a), w)
  unfolding ratchet_to_send
  quiet_ratchet a w quiet = rw (ratchet_to_send, quiet) refl

  -- A message of another number on the chain that is in use.
  ahead_rejected :
      (alice bob : Client) (later : W) (a b : SessionState) (stepped sent : Stepped)
      → bob.sessions_by_peer alice.user_id ≡ some b
      → InSync dh a b
      → a.send_counter + 1 < 2 ^ 64
      → (handle_chat_message host
          (sealed_with sent
            (draft alice.user_id bob.user_id (same_ratchet (sent_session stepped a))))
          bob
          later).0
        ≡ err "replay or out-of-order message rejected"
  unfolding draft same_ratchet sent_session ratchet_to_receive
  ahead_rejected alice bob later a b stepped sent has_b i small =
      ap (λ o. o.0)
        (out_of_order_rejected host
          (sealed_with sent
            (draft alice.user_id bob.user_id (same_ratchet (sent_session stepped a))))
          bob later b b (bytes_eq_refl bob.user_id) has_b
          (rw i.same_id (bytes_eq_refl b.session_id)) refl (rw (← i.forth_count) (ground arith)))

  -- After a message that the server refused, the next one does not arrive: its sender is told that it is
  -- sent, but the receiver, whose session belonged to the sender's, rejects it as out of order. (No ratchet
  -- is due for either message, and the counter does not wrap.)
  pub refused_message_blocks :
      (alice bob : Client) (w queued next later : W) (s : Client × W) (a b : SessionState)
      (first second : Bytes) (stepped : Stepped) (text : String)
      → alice.sessions_by_peer bob.user_id ≡ some a
      → bob.sessions_by_peer alice.user_id ≡ some b
      → InSync dh a b
      → ratchet_due a ≡ false
      → ratchet_due (sent_session stepped a) ≡ false
      → a.send_counter + 1 < 2 ^ 64
      → encrypt_chat host (draft alice.user_id bob.user_id (same_ratchet a)) a first ≡ ok stepped
      → host.server.enqueue_envelope bob.user_id
          (from_chat (sealed_with stepped (draft alice.user_id bob.user_id (same_ratchet a))))
          w
        ≡ (err text, queued)
      → send_message host bob.user_id second
          (after_step bob.user_id stepped (same_ratchet a) alice)
          next
        ≡ (ok tt, s)
      → (send_message host bob.user_id first alice w
          ≡ (err text, (after_step bob.user_id stepped (same_ratchet a) alice, queued)))
        × ((message : ChatMessage) × (from : W) × (to : W) × (host.server.enqueue_envelope
                bob.user_id
                (from_chat message)
                from
              ≡ (ok tt, to))
            × ((handle_chat_message host message bob later).0
                ≡ err "replay or out-of-order message rejected"))
  unfolding same_ratchet set_session
  refused_message_blocks alice bob w queued next later s a b first second stepped text has_a has_b i
        quiet still small encrypted refused e =
      let after = after_step bob.user_id stepped (same_ratchet a) alice in
      let sent = send_message-Sent host bob.user_id second after next s e in
      let same : sent.before ≡ sent_session stepped a =
        some-injective (sym sent.found ∙ insert_self bob.user_id (sent_session stepped a) _) in
      let ratchet : ratchet_to_send host sent.before next
          ≡ (ok (same_ratchet (sent_session stepped a)), next) =
        rw same (quiet_ratchet (sent_session stepped a) next still) in
      let out : sent.out ≡ same_ratchet (sent_session stepped a) =
        ok-injective (ap (λ o. o.0) (sym sent.ratchet ∙ ratchet)) in
      (
        refused_message_counts host bob.user_id first alice w w queued a (same_ratchet a) stepped
            text has_a (quiet_ratchet a w quiet) encrypted refused,
        (
          sealed_with sent.stepped (draft alice.user_id bob.user_id sent.out),
          sent.between,
          sent.queued,
          sent.enqueued,
          rw out (ahead_rejected alice bob later a b stepped sent.stepped has_b i small),
        ),
      )
