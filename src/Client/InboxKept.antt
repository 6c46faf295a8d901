-- ===== src/Client/InboxKept.antt =====
-- The one-time prekeys under ProcessInbox of src/client/client.cpp.
use pqchat.Client.Act.{Keeps, Keeps-returned}
use pqchat.Client.Host.{Host}
use pqchat.Client.Inbox.{
  Progress, after_batch, after_passes, drain_failed, drain_passes, finish_inbox, handle_batch,
  handle_envelope, has_text, inbox_result, process_inbox, refill_and_republish, republish,
  save_inbox, set_pending,
}
use pqchat.Client.LocalState.Save.{save_local_state}
use pqchat.Client.PrekeyErased.{moved_on}
use pqchat.Client.PrekeyKept.{
  handle_chat_message-Keeps, handle_initial_message-Keeps, publish_prekeys-Keeps,
}
use pqchat.Client.PrekeyLaws.{IdsUnique, Unique, refill_one_time_prekey_pools-IdsUnique}
use pqchat.Client.Prekeys.{publish_prekeys, refill_one_time_prekey_pools}
use pqchat.Client.State.{Client, max_inbox_drain_passes}
use pqchat.Prelude.{
  Bool-cases, List, Option, String, [], inl, inr, none, refl, some, suc, zero, ℕ, not, ◌&&◌, ◌++◌,
  ◌∷◌,
}
use pqchat.Protocol.Messages.{
  ChatMessage, Envelope, EnvelopeType, InboxEnvelope, InitialMessage, chat_kind, initial_kind,
}
use pqchat.Result.{Result-cases}
use pqchat.Server.InMemory.State.{empty}

module _ {W : Type 0} (host : Host W) where
  handle_envelope-Keeps : (envelope : Envelope) → Keeps Unique (handle_envelope host envelope)
  unfolding handle_envelope
  handle_envelope-Keeps envelope = by_kind envelope.kind envelope.initial envelope.chat
    where
      by_kind :
          (kind : EnvelopeType) (initial : Option InitialMessage) (chat : Option ChatMessage)
          → Keeps Unique
              (handle_envelope host (record { kind = kind; initial = initial; chat = chat }))
      by_kind initial_kind (some message) chat = handle_initial_message-Keeps host message
      by_kind initial_kind none chat = Keeps-returned Unique _
      by_kind chat_kind initial (some message) = handle_chat_message-Keeps host message
      by_kind chat_kind initial none = Keeps-returned Unique _

  handle_batch-IdsUnique :
      (items : List InboxEnvelope) (p : Progress) (ackable : Option ℕ) (c : Client) (w : W)
      → IdsUnique c
      → IdsUnique (handle_batch host items p ackable c w).client
  unfolding handle_batch
  handle_batch-IdsUnique [] p ackable c w u = u
  handle_batch-IdsUnique (item ∷ items) p ackable c w u =
      let outcome = handle_envelope host item.envelope c w in
      let after = (handle_envelope-Keeps item.envelope).keeps c w u in
      elim (Result-cases outcome.0) [
        | inl (text, e) ↦ rw (handle_batch, e) after
        | inr (text, e) ↦
            rw (handle_batch, e)
              (handle_batch-IdsUnique items (record p { plaintexts = p.plaintexts ++ (text ∷ []) })
                (some item.inbox_id) outcome.1.0 outcome.1.1 after)
      ]

  drain_failed-client :
      (text : String) (p : Progress) (c : Client) (w : W)
      → IdsUnique c
      → IdsUnique (drain_failed host text p c w).1.0
  unfolding drain_failed set_pending
  drain_failed-client text p c w u =
      elim (Bool-cases (empty p.plaintexts && not (has_text p.first_error))) [
        | inl nothing ↦ rw nothing (moved_on u refl refl)
        | inr something ↦ rw something (moved_on u refl refl)
      ]

  drain_passes-IdsUnique :
      (passes : ℕ) (p : Progress) (c : Client) (w : W)
      → IdsUnique c
      → IdsUnique (drain_passes host passes p c w).1.0
  unfolding drain_passes after_batch set_pending
  drain_passes-IdsUnique zero p c w u = u
  drain_passes-IdsUnique (suc passes) p c w u =
      let drained = host.server.drain_inbox c.user_id p.ack_to_send w in
      let acked : Progress = record p { ack_to_send = none } in
      let after : Client = set_pending none c in
      elim (Result-cases drained.0) [
        | inl (text, e) ↦ rw (drain_passes, e) (drain_failed-client text p c drained.1 u)
        | inr (items, e) ↦ elim (Bool-cases (empty items)) [
          | inl nothing ↦ rw (drain_passes, e, nothing) (moved_on u refl refl)
          | inr some_items ↦
              let b = after_batch host (handle_batch host items acked none after drained.1) in
              let left : IdsUnique b.client =
                moved_on
                  (handle_batch-IdsUnique items acked none after drained.1 (moved_on u refl refl))
                  refl refl in
              elim (Bool-cases b.saw_error) [
                | inl stopped ↦ rw (drain_passes, e, some_items, stopped) left
                | inr goes_on ↦
                    rw (drain_passes, e, some_items, goes_on)
                      (drain_passes-IdsUnique passes b.progress b.client b.world left)
              ]
        ]
      ]

  republish-IdsUnique :
      (p : Progress) (c : Client) (w : W) → IdsUnique c → IdsUnique (republish host p c w).1.0
  unfolding republish
  republish-IdsUnique p c w u =
      let published = publish_prekeys host c w in
      let after = (publish_prekeys-Keeps host).keeps c w u in
      elim (Result-cases published.0) [
        | inl (text, e) ↦ rw (republish, e) after
        | inr (done, e) ↦ rw (republish, e) (moved_on after refl refl)
      ]

  refill_and_republish-IdsUnique :
      (p : Progress) (c : Client) (w : W)
      → IdsUnique c
      → IdsUnique (refill_and_republish host p c w).1.0
  unfolding refill_and_republish
  refill_and_republish-IdsUnique p c w u =
      let refilled = refill_one_time_prekey_pools host c w in
      let after = refill_one_time_prekey_pools-IdsUnique host c w u in
      elim (Result-cases refilled.0) [
        | inr (done, e) ↦
            rw (refill_and_republish, e) (republish-IdsUnique p refilled.1.0 refilled.1.1 after)
        | inl (text, e) ↦ elim (Bool-cases (has_text p.first_error)) [
          | inl earlier ↦
              rw (refill_and_republish, e, earlier)
                (republish-IdsUnique p refilled.1.0 refilled.1.1 after)
          | inr first ↦ rw (refill_and_republish, e, first) after
        ]
      ]

  finish_inbox-client :
      (p : Progress) (c : Client) (w : W) → IdsUnique c → IdsUnique (finish_inbox host p c w).1.0
  unfolding finish_inbox save_inbox
  finish_inbox-client p c w u = elim (Result-cases (inbox_result p)) [
    | inl (text, e) ↦ rw (finish_inbox, e) u
    | inr (texts, e) ↦ elim (Result-cases (save_local_state host c w).0) [
      | inl (text, f) ↦ rw (finish_inbox, save_inbox, e, f) u
      | inr (done, f) ↦ rw (finish_inbox, save_inbox, e, f) u
    ]
  ]

  after_passes-IdsUnique :
      (p : Progress) (c : Client) (w : W) → IdsUnique c → IdsUnique (after_passes host p c w).1.0
  unfolding after_passes
  after_passes-IdsUnique p c w u =
      let again = refill_and_republish host p c w in
      elim (Bool-cases c.prekeys_dirty) [
        | inl dirty ↦
            rw (after_passes, dirty)
              (finish_inbox-client again.0 again.1.0 again.1.1
                (refill_and_republish-IdsUnique p c w u))
        | inr clean ↦ rw (after_passes, clean) (finish_inbox-client p c w u)
      ]

  -- Whatever the call returns.
  pub process_inbox-IdsUnique :
      (c : Client) (w : W) → IdsUnique c → IdsUnique (process_inbox host c w).1.0
  unfolding process_inbox
  process_inbox-IdsUnique c w u =
      let start : Progress = record {
        plaintexts = [];
        first_error = none;
        ack_to_send = c.pending_inbox_ack_up_to_id;
      } in
      let passed = drain_passes host max_inbox_drain_passes start c w in
      let after = drain_passes-IdsUnique max_inbox_drain_passes start c w u in
      elim (Result-cases passed.0) [
        | inl (text, e) ↦ rw (process_inbox, e) after
        | inr (p, e) ↦ rw (process_inbox, e) (after_passes-IdsUnique p passed.1.0 passed.1.1 after)
      ]
