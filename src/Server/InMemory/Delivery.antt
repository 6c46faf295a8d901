-- ===== src/Server/InMemory/Delivery.antt =====
-- From one drain to the next: what DrainInbox of src/server/in_memory_server.cpp returns, keeps and
-- removes.
use pqchat.Crypto.{OpenSsl}
use pqchat.Prelude.{
  Bytes, List, Option, [], ap, arith, drop, insert_self, length, none, some, suc, take, zero, ℕ,
  ◌∙◌, ◌∷◌, ◌≡◌, ◌≤◌,
}
use pqchat.Protocol.Messages.{InboxEnvelope}
use pqchat.Result.{ok}
use pqchat.Server.InMemory.Inbox.{acknowledge, collect_batch, drain_inbox, drop_acknowledged}
use pqchat.Server.InMemory.InboxLaws.{
  Ascending, Batch, above_all, collect_batch-Batch, drop_acknowledged_exact, ids_above, map_items,
}
use pqchat.Server.InMemory.Invariants.{Reachable-Invariant}
use pqchat.Server.InMemory.Reachable.{Reachable}
use pqchat.Server.InMemory.State.{InMemoryServer, InboxEntry}

-- The id of the last item, and `start` where there is none.
abbrev pub last_id : ℕ → List InboxEnvelope → ℕ
last_id start [] = start
last_id start (item ∷ items) = last_id item.inbox_id items

last_id-above :
    (k low high : ℕ) (entries : List InboxEntry)
    → Ascending low high entries
    → low ≤ last_id low (map_items (take k entries))
last_id-above zero low high entries a = omega arith
last_id-above (suc k) low high [] a = omega arith
last_id-above (suc k) low high (entry ∷ entries) a =
    omega (arith, a.0, last_id-above k entry.inbox_id high entries a.1)

none_dropped :
    (low high : ℕ) (entries : List InboxEntry)
    → Ascending low high entries
    → drop_acknowledged low entries ≡ entries
none_dropped low high entries a =
    drop_acknowledged_exact low low high entries a ∙ above_all low low high entries (omega arith) a

batch_dropped :
    (k low high : ℕ) (entries : List InboxEntry)
    → Ascending low high entries
    → drop_acknowledged (last_id low (map_items (take k entries))) entries ≡ drop k entries
unfolding drop_acknowledged
batch_dropped zero low high entries a = none_dropped low high entries a
batch_dropped (suc k) low high [] a = none_dropped low high [] a
batch_dropped (suc k) low high (entry ∷ entries) a = ground (
  arith,
  batch_dropped k entry.inbox_id high entries a.1,
  last_id-above k entry.inbox_id high entries a.1,
)

-- What a successful drain does to the entries of the user.
pub record Drained (ack : Option ℕ) (user : Bytes) (entries : List InboxEntry)
    (after : InMemoryServer) (batch : List InboxEnvelope) : Type 0 where
  pub kept : after.inbox user ≡ some (acknowledge ack entries)
  pub chosen : Batch 0 0 (acknowledge ack entries) batch

-- A successful drain keeps the entries that are left behind the acknowledged ones at the front, and
-- returns the oldest of these: at most 128, with an estimated size of more than 512 KiB only for a
-- single one, and none only where nothing is left.
pub drain_inbox-Drained :
    (user : Bytes) (ack : Option ℕ) (s after : InMemoryServer) (entries : List InboxEntry)
    (batch : List InboxEnvelope)
    → s.inbox user ≡ some entries
    → drain_inbox user ack s ≡ (ok batch, after)
    → Drained ack user entries after batch
unfolding drain_inbox
drain_inbox-Drained user ack s after entries batch found e =
    let taken : collect_batch 0 0 (acknowledge ack entries) ≡ ok batch = ground arith in
    record {
      kept = ground (arith, insert_self user (acknowledge ack entries) s.inbox);
      chosen = collect_batch-Batch 0 0 (acknowledge ack entries) batch (omega arith) taken;
    }

-- In every run in which no user's inbox ids wrap, an acknowledgement removes exactly the entries whose
-- ids it covers.
acknowledged_exactly :
    (o : OpenSsl) (token user : Bytes) (n : ℕ) (s : InMemoryServer) (entries : List InboxEntry)
    → Reachable o token s
    → s.inbox user ≡ some entries
    → (drain_inbox user (some n) s).1.inbox user ≡ some (ids_above n entries)
unfolding drain_inbox
acknowledged_exactly o token user n s entries r found =
    let exact =
      drop_acknowledged_exact n 0 _ entries
        ((Reachable-Invariant o token s r).ordered user entries found) in
    ground (arith, insert_self user (drop_acknowledged n entries) s.inbox, exact)

-- No message is lost or skipped between two drains: in every run in which no user's inbox ids wrap,
-- a drain without acknowledgement returns the front of the user's inbox, and a second one that
-- acknowledges the last id of that batch leaves exactly the entries behind it.
pub next_drain_continues :
    (o : OpenSsl) (token user : Bytes) (s after : InMemoryServer) (entries : List InboxEntry)
    (batch : List InboxEnvelope)
    → Reachable o token s
    → s.inbox user ≡ some entries
    → drain_inbox user none s ≡ (ok batch, after)
    → (batch ≡ map_items (take (length batch) entries))
      × ((drain_inbox user (some (last_id 0 batch)) after).1.inbox user
          ≡ some (drop (length batch) entries))
unfolding drain_inbox
next_drain_continues o token user s after entries batch r found e =
    let drained = drain_inbox-Drained user none s after entries batch found e in
    let front = drained.chosen.front in
    let ordered = (Reachable-Invariant o token s r).ordered user entries found in
    let dropped : drop_acknowledged (last_id 0 batch) entries ≡ drop (length batch) entries =
      ap (λ b. drop_acknowledged (last_id 0 b) entries) front
      ∙ batch_dropped (length batch) 0 _ entries ordered in
    (
      front,
      ground (
        arith,
        drained.kept,
        insert_self user (drop_acknowledged (last_id 0 batch) entries) after.inbox,
        dropped,
      ),
    )
