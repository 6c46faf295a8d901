-- ===== src/Server/InMemory/Inbox.antt =====
-- EnqueueEnvelope and DrainInbox of src/server/in_memory_server.cpp. Inbox ids are uint64_t.
use pqchat.Prelude.{
  Bool, Bytes, List, Option, [], false, if◌then◌else◌, insert, leb, length, ltb, none, not, some,
  true, ℕ, ◌%◌, ◌&&◌, ◌*◌, ◌++◌, ◌+◌, ◌==◌, ◌^◌, ◌||◌, ◌∷◌,
}
use pqchat.Protocol.Messages.{Envelope, InboxEnvelope}
use pqchat.Protocol.Serialization.Envelopes.{serialize_envelope}
use pqchat.Result.{Result, ok, ◌>>=◌}
use pqchat.Server.InMemory.State.{InMemoryServer, InboxEntry, Outcome, value_or}

abbrev pub max_drain_inbox_batch_items : ℕ
max_drain_inbox_batch_items = 128

abbrev pub max_drain_inbox_batch_bytes : ℕ
max_drain_inbox_batch_bytes = 512 * 1024

unfoldable pub enqueue_envelope : Bytes → Envelope → InMemoryServer → Outcome (Unit {0})
enqueue_envelope user_id envelope server =
    let next_id = (value_or 0 (server.next_inbox_id_by_user user_id) + 1) % 2 ^ 64 in
    let entry : InboxEntry = record { inbox_id = next_id; envelope = envelope } in
    (
      ok tt,
      record server {
        next_inbox_id_by_user = insert user_id next_id server.next_inbox_id_by_user;
        inbox = insert user_id (value_or [] (server.inbox user_id) ++ (entry ∷ [])) server.inbox;
      },
    )

-- `while (!inbox.empty() && inbox.front().inbox_id <= ack) inbox.pop_front();`
unfoldable pub drop_acknowledged : ℕ → List InboxEntry → List InboxEntry
drop_acknowledged ack [] = []
drop_acknowledged ack (entry ∷ entries) =
    let rest = drop_acknowledged ack entries in
    if leb entry.inbox_id ack then rest else entry ∷ entries

abbrev pub acknowledge : Option ℕ → List InboxEntry → List InboxEntry
acknowledge none entries = entries
acknowledge (some ack) entries = drop_acknowledged ack entries

-- `encoded.value().size() + sizeof(uint64_t) + 8`
abbrev pub estimated_size : Bytes → ℕ
estimated_size encoded = length encoded + 8 + 8

-- The test that ends the loop, by the number of items and of bytes so far.
unfoldable pub batch_is_full : ℕ → ℕ → ℕ → Bool
batch_is_full items total size =
    not (items == 0)
    && (leb max_drain_inbox_batch_items items || ltb max_drain_inbox_batch_bytes (total + size))

unfoldable pub collect_batch : ℕ → ℕ → List InboxEntry → Result (List InboxEnvelope)
collect_batch items total [] = ok []
collect_batch items total (entry ∷ entries) = do
  encoded ← serialize_envelope entry.envelope
  elim (batch_is_full items total (estimated_size encoded)) [
    | true ↦ ok []
    | false ↦ do
      rest ← collect_batch (items + 1) (total + estimated_size encoded) entries
      ok (record { inbox_id = entry.inbox_id; envelope = entry.envelope } ∷ rest)
  ]

unfoldable pub drain_inbox : Bytes → Option ℕ → InMemoryServer → Outcome (List InboxEnvelope)
drain_inbox user_id ack_up_to_inbox_id server = elim (server.inbox user_id) [
  | none ↦ (ok [], server)
  | some entries ↦
      let left = acknowledge ack_up_to_inbox_id entries in
      (collect_batch 0 0 left, record server { inbox = insert user_id left server.inbox })
]
