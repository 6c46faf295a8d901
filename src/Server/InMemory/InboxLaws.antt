-- ===== src/Server/InMemory/InboxLaws.antt =====
-- Delivery: what DrainInbox of src/server/in_memory_server.cpp returns and keeps.
use Prim.Native.Nat.{max}
use pqchat.Prelude.{
  Bool-cases, Bytes, List, [], ap, arith, false, if◌then◌else◌, inl, inr, leb, length, ltb, lt→ltb,
  min, refl, subst, take, true, ℕ, ◌++◌, ◌+◌, ◌<◌, ◌∷◌, ◌≡◌, ◌≤◌, ◌⊎◌,
}
use pqchat.Protocol.Messages.{InboxEnvelope}
use pqchat.Protocol.Serialization.Envelopes.{serialize_envelope}
use pqchat.Result.{>>=-eq-ok, Result, err, ok, ok-injective, ◌>>=◌}
use pqchat.Server.InMemory.Inbox.{
  batch_is_full, collect_batch, drop_acknowledged, estimated_size, max_drain_inbox_batch_bytes,
  max_drain_inbox_batch_items,
}
use pqchat.Server.InMemory.State.{InboxEntry}

abbrev to_item : InboxEntry → InboxEnvelope
to_item entry = record { inbox_id = entry.inbox_id; envelope = entry.envelope }

abbrev pub map_items : List InboxEntry → List InboxEnvelope
map_items [] = []
map_items (entry ∷ entries) = to_item entry ∷ map_items entries

-- Each id is above the one before, and all are above `low` and at most `high`.
abbrev pub Ascending : ℕ → ℕ → List InboxEntry → Type 0
Ascending low high [] = low ≤ high
Ascending low high (entry ∷ entries) =
    (low < entry.inbox_id) × Ascending entry.inbox_id high entries

abbrev pub ids_above : ℕ → List InboxEntry → List InboxEntry
ids_above ack [] = []
ids_above ack (entry ∷ entries) =
    let rest = ids_above ack entries in if ltb ack entry.inbox_id then entry ∷ rest else rest

Ascending-low :
    (low lower high : ℕ) (entries : List InboxEntry)
    → lower ≤ low
    → Ascending low high entries
    → Ascending lower high entries
Ascending-low low lower high [] h a = omega (arith, a)
Ascending-low low lower high (entry ∷ entries) h a = (omega (arith, a.0), a.1)

pub Ascending-append :
    (low high next : ℕ) (entries : List InboxEntry) (entry : InboxEntry)
    → Ascending low high entries
    → high < entry.inbox_id
    → entry.inbox_id ≤ next
    → Ascending low next (entries ++ (entry ∷ []))
Ascending-append low high next [] entry a h k = (omega (arith, a), k)
Ascending-append low high next (e ∷ entries) entry a h k =
    (a.0, Ascending-append e.inbox_id high next entries entry a.1 h k)

pub above_all :
    (ack low high : ℕ) (entries : List InboxEntry)
    → ack ≤ low
    → Ascending low high entries
    → ids_above ack entries ≡ entries
above_all ack low high [] h a = refl
above_all ack low high (entry ∷ entries) h a =
    rw
      (
        lt→ltb ack entry.inbox_id (omega (arith, a.0)),
        above_all ack entry.inbox_id high entries (omega (arith, a.0)) a.1,
      )
      refl

pub drop_acknowledged_exact :
    (ack low high : ℕ) (entries : List InboxEntry)
    → Ascending low high entries
    → drop_acknowledged ack entries ≡ ids_above ack entries
unfolding drop_acknowledged
drop_acknowledged_exact ack low high [] a = refl
drop_acknowledged_exact ack low high (entry ∷ entries) a = ground (
  arith,
  drop_acknowledged_exact ack entry.inbox_id high entries a.1,
  above_all ack entry.inbox_id high entries,
)

pub drop_acknowledged-Ascending :
    (ack low high : ℕ) (entries : List InboxEntry)
    → Ascending low high entries
    → Ascending low high (drop_acknowledged ack entries)
unfolding drop_acknowledged
drop_acknowledged-Ascending ack low high [] a = a
drop_acknowledged-Ascending ack low high (entry ∷ entries) a =
    elim (Bool-cases (leb entry.inbox_id ack)) [
      | inl acked ↦ rw acked (
          Ascending-low entry.inbox_id low high _ (omega (arith, a.0))
            (drop_acknowledged-Ascending ack entry.inbox_id high entries a.1))
      | inr kept ↦ rw kept a
    ]

-- The size that the loop counts for an envelope.
abbrev counted : Result Bytes → ℕ
counted (ok encoded) = estimated_size encoded
counted (err text) = estimated_size []

counted-positive : (r : Result Bytes) → 1 ≤ counted r
counted-positive (ok encoded) = omega arith
counted-positive (err text) = omega arith

abbrev batch_bytes : List InboxEnvelope → ℕ
batch_bytes [] = 0
batch_bytes (item ∷ items) = counted (serialize_envelope item.envelope) + batch_bytes items

-- A batch is the front of the entries, of at most 128, and of more than 512 KiB only if it is a single
-- one; it is empty only if there are no entries. `items` and `total` stand for what came before.
pub record Batch (items total : ℕ) (entries : List InboxEntry) (batch : List InboxEnvelope)
    : Type 0 where
  pub front : batch ≡ map_items (take (length batch) entries)
  pub within : length batch ≤ length entries
  pub items_bound : items + length batch ≤ max_drain_inbox_batch_items
  pub bytes_bound :
      (items + length batch ≤ 1)
      ⊎ (total + batch_bytes batch ≤ max total max_drain_inbox_batch_bytes)
  pub progress : min 1 (length entries) ≤ items + length batch

batch_bytes-length : (batch : List InboxEnvelope) → length batch ≤ batch_bytes batch
batch_bytes-length [] = omega arith
batch_bytes-length (item ∷ items) =
    omega (arith, batch_bytes-length items, counted-positive (serialize_envelope item.envelope))

nothing_taken :
    (items total : ℕ) (entries : List InboxEntry)
    → items ≤ max_drain_inbox_batch_items
    → min 1 (length entries) ≤ items
    → Batch items total entries []
nothing_taken items total entries h k = record {
  front = refl;
  within = omega arith;
  items_bound = omega arith;
  bytes_bound = inr (omega arith);
  progress = omega arith;
}

one_taken :
    (items total : ℕ) (entry : InboxEntry) (entries : List InboxEntry) (rest : List InboxEnvelope)
    (encoded : Bytes)
    → serialize_envelope entry.envelope ≡ ok encoded
    → (items ≡ 0) ⊎ (total + estimated_size encoded ≤ max_drain_inbox_batch_bytes)
    → Batch (items + 1) (total + estimated_size encoded) entries rest
    → Batch items total (entry ∷ entries) (to_item entry ∷ rest)
one_taken items total entry entries rest encoded h fits b = record {
  front = ap (λ t. to_item entry ∷ t) b.front;
  within = omega (arith, b.within);
  items_bound = omega (arith, b.items_bound);
  bytes_bound = ground (arith, b.bytes_bound, fits, batch_bytes-length rest, ap counted h);
  progress = omega arith;
}

full_started : (items total size : ℕ) → batch_is_full items total size ≡ true → 1 ≤ items
unfolding batch_is_full
full_started items total size h = ground arith

room_left :
    (items total size : ℕ)
    → batch_is_full items total size ≡ false
    → ((items ≡ 0) ⊎ (total + size ≤ max_drain_inbox_batch_bytes))
      × (items + 1 ≤ max_drain_inbox_batch_items)
unfolding batch_is_full
room_left items total size h = (ground arith, ground arith)

pub collect_batch-Batch :
    (items total : ℕ) (entries : List InboxEntry) (batch : List InboxEnvelope)
    → items ≤ max_drain_inbox_batch_items
    → collect_batch items total entries ≡ ok batch
    → Batch items total entries batch
unfolding collect_batch
collect_batch-Batch items total [] batch h e =
    subst (Batch items total []) (ok-injective e) (nothing_taken items total [] h (omega arith))
collect_batch-Batch items total (entry ∷ entries) batch h e =
    let (encoded, written, k) = >>=-eq-ok (serialize_envelope entry.envelope) _ e in
    elim (Bool-cases (batch_is_full items total (estimated_size encoded))) [
      | inl full ↦
          let nothing : [] ≡ batch = ground arith in
          subst (Batch items total (entry ∷ entries)) nothing (
            nothing_taken items total _ h
              (omega (arith, full_started items total (estimated_size encoded) full)))
      | inr room ↦
          let more : (collect_batch (items + 1) (total + estimated_size encoded) entries >>= λ rest.
          ok (to_item entry ∷ rest))
              ≡ ok batch =
            ground arith in
          let (rest, taken, all) =
            >>=-eq-ok (collect_batch (items + 1) (total + estimated_size encoded) entries) _ more in
          let (fits, below) = room_left items total (estimated_size encoded) room in
          subst (Batch items total (entry ∷ entries)) (ok-injective all) (
            one_taken items total entry entries rest encoded written fits (
              collect_batch-Batch (items + 1) (total + estimated_size encoded) entries rest below
                taken))
    ]
