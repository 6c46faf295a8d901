-- ===== src/Client/Inbox.antt =====
-- ProcessInbox of src/client/client.cpp. The server is not null.
use pqchat.Client.Accept.{handle_initial_message}
use pqchat.Client.Act.{Act, fail}
use pqchat.Client.Chat.{handle_chat_message}
use pqchat.Client.Host.{Host}
use pqchat.Client.LocalState.Save.{save_local_state}
use pqchat.Client.Prekeys.{publish_prekeys, refill_one_time_prekey_pools}
use pqchat.Client.State.{Client, max_inbox_drain_passes}
use pqchat.Prelude.{
  Bool, Bytes, List, Option, String, [], concat, false, if◌then◌else◌, none, not, some, suc, true,
  zero, ℕ, ◌&&◌, ◌++◌, ◌∷◌,
}
use pqchat.Protocol.Messages.{
  ChatMessage, Envelope, EnvelopeType, InboxEnvelope, InitialMessage, chat_kind, initial_kind,
}
use pqchat.Result.{Result, err, ok}
use pqchat.Server.InMemory.State.{empty}

-- The local variables that the loops share. No text is the empty `first_error`.
pub record Progress : Type 0 where
  pub plaintexts : List Bytes
  pub first_error : Option String
  pub ack_to_send : Option ℕ

-- `if (first_error.empty()) first_error = text;`
abbrev pub first_of_errors : Option String → String → Option String
first_of_errors none text = some text
first_of_errors (some first) text = some first

unfoldable pub note_error : String → Progress → Progress
note_error text p = record p { first_error = first_of_errors p.first_error text }

-- What the loop over one batch leaves: `max_ackable_inbox_id` and `saw_processing_error` with the rest.
pub record BatchEnd (W : Type 0) : Type 0 where
  pub progress : Progress
  pub max_ackable : Option ℕ
  pub saw_error : Bool
  pub client : Client
  pub world : W

unfoldable pub set_pending : Option ℕ → Client → Client
set_pending ack client = record client { pending_inbox_ack_up_to_id = ack }

-- `if (value.has_value()) target = value;`
abbrev or_else : Option ℕ → Option ℕ → Option ℕ
or_else none target = target
or_else (some v) target = some v

abbrev pub has_text : Option String → Bool
has_text none = false
has_text (some _) = true

-- What is returned when nothing more is saved.
unfoldable pub inbox_result : Progress → Result (List Bytes)
inbox_result p = elim p.first_error [
  | none ↦ ok p.plaintexts
  | some text ↦ if empty p.plaintexts then err text else ok p.plaintexts
]

module _ {W : Type 0} (host : Host W) where
  unfoldable pub handle_envelope : Envelope → Act W Bytes
  handle_envelope envelope = go envelope.kind envelope.initial envelope.chat
    where
      go : EnvelopeType → Option InitialMessage → Option ChatMessage → Act W Bytes
      go initial_kind (some message) _ = handle_initial_message host message
      go chat_kind _ (some message) = handle_chat_message host message
      go _ _ _ = fail "invalid envelope"

  -- The loop over the envelopes of a batch.
  unfoldable pub handle_batch : List InboxEnvelope → Progress → Option ℕ → Client → W → BatchEnd W
  handle_batch [] p ackable client w = record {
    progress = p;
    max_ackable = ackable;
    saw_error = false;
    client = client;
    world = w;
  }
  handle_batch (item ∷ items) p ackable client w =
      let (status, s) = handle_envelope item.envelope client w in
      elim status [
        | err text ↦ record {
          progress = note_error text p;
          max_ackable = ackable;
          saw_error = true;
          client = s.0;
          world = s.1;
        }
        | ok text ↦
            handle_batch items (record p { plaintexts = p.plaintexts ++ (text ∷ []) })
              (some item.inbox_id) s.0 s.1
      ]

  -- What follows the loop over a batch: the acknowledgement that is pending.
  unfoldable pub after_batch : BatchEnd W → BatchEnd W
  after_batch b = record b {
    progress = record b.progress { ack_to_send = or_else b.max_ackable b.progress.ack_to_send };
    client = set_pending (or_else b.max_ackable b.client.pending_inbox_ack_up_to_id) b.client;
  }

  -- A drain that failed keeps the acknowledgement; it ends the call where there is nothing to report yet.
  unfoldable pub drain_failed : String → Progress → Client → W → Result Progress × (Client × W)
  drain_failed text p client w =
      let kept = set_pending (or_else p.ack_to_send client.pending_inbox_ack_up_to_id) client in
      let message = concat "drain inbox failed: " text in
      if empty p.plaintexts && not (has_text p.first_error)
      then (err message, (kept, w))
      else (ok (note_error message p), (kept, w))

  -- The passes, by the number left.
  unfoldable pub drain_passes : ℕ → Progress → Client → W → Result Progress × (Client × W)
  drain_passes zero p client w = (ok p, (client, w))
  drain_passes (suc passes) p client w =
      let (drained, w') = host.server.drain_inbox client.user_id p.ack_to_send w in
      elim drained [
        | err text ↦ drain_failed text p client w'
        | ok items ↦
            let acked = record p { ack_to_send = none } in
            let client' = set_pending none client in
            elim (empty items) [
              | true ↦ (ok acked, (client', w'))
              | false ↦
                  let b = after_batch (handle_batch items acked none client' w') in
                  elim b.saw_error [
                    | true ↦ (ok b.progress, (b.client, b.world))
                    | false ↦ drain_passes passes b.progress b.client b.world
                  ]
            ]
      ]

  abbrev clean : Client → Client
  clean client = record client { prekeys_dirty = false }

  -- The prekeys are published also where the refill failed after an earlier error.
  unfoldable pub republish : Progress → Client → W → Progress × (Client × W)
  republish p client w =
      let (published, s) = publish_prekeys host client w in
      elim published [
        | ok _ ↦ (p, (clean s.0, s.1))
        | err text ↦ (note_error (concat "prekey republish failed: " text) p, s)
      ]

  unfoldable pub refill_and_republish : Progress → Client → W → Progress × (Client × W)
  refill_and_republish p client w =
      let (refilled, s) = refill_one_time_prekey_pools host client w in
      elim refilled [
        | ok _ ↦ republish p s.0 s.1
        | err text ↦ elim (has_text p.first_error) [
          | false ↦ (note_error (concat "prekey pool refill failed: " text) p, s)
          | true ↦ republish p s.0 s.1
        ]
      ]

  unfoldable pub save_inbox : Progress → Client → W → Result (List Bytes) × (Client × W)
  save_inbox p client w =
      let (saved, w') = save_local_state host client w in
      elim saved [
        | ok _ ↦ (inbox_result p, (client, w'))
        | err text ↦
            (inbox_result (note_error (concat "persist local state failed: " text) p), (client, w'))
      ]

  -- The end of the call, once the prekeys are refilled.
  unfoldable pub finish_inbox : Progress → Client → W → Result (List Bytes) × (Client × W)
  finish_inbox p client w = elim (inbox_result p) [
    | err text ↦ (err text, (client, w))
    | ok _ ↦ save_inbox p client w
  ]

  unfoldable pub after_passes : Progress → Client → W → Result (List Bytes) × (Client × W)
  after_passes p client w = elim client.prekeys_dirty [
    | false ↦ finish_inbox p client w
    | true ↦ let (p', s) = refill_and_republish p client w in finish_inbox p' s.0 s.1
  ]

  unfoldable pub process_inbox : Act W (List Bytes)
  process_inbox client w =
      let start : Progress = record {
        plaintexts = [];
        first_error = none;
        ack_to_send = client.pending_inbox_ack_up_to_id;
      } in
      let (r, s) = drain_passes max_inbox_drain_passes start client w in
      elim r [ err text ↦ (err text, s) | ok p ↦ after_passes p s.0 s.1 ]
