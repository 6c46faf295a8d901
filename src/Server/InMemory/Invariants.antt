-- ===== src/Server/InMemory/Invariants.antt =====
-- What holds of the bundles and the inboxes in every run of the server.
use pqchat.Crypto.{OpenSsl}
use pqchat.Prelude.{
  Bytes, List, Map, Option, Option-cases, [], ap, arith, bytes_eq, bytes_eq_sound, inl, inr, insert,
  insert-cases, insert_other, insert_self, none, refl, some, subst, subst₂, sym, true, ℕ, ◌%◌, ◌+◌,
  ◌<◌, ◌^◌, ◌∙◌, ◌≡◌,
}
use pqchat.Protocol.Messages.{Envelope}
use pqchat.Protocol.PrekeyBundle.{PrekeyBundle}
use pqchat.Protocol.SignInputs.{verify_prekey_bundle_signatures}
use pqchat.Result.{Result-cases, ok}
use pqchat.Server.InMemory.BundleLaws.{
  AllVerified, acquire_bundle_for_session-HandedOut, check_bundle-verified, hand_out-HandedOut,
  verify-ignores_one_time,
}
use pqchat.Server.InMemory.Bundles.{
  acquire_bundle_for_session, check_bundle, hand_out, publish_bundle,
}
use pqchat.Server.InMemory.Inbox.{acknowledge, drain_inbox, enqueue_envelope}
use pqchat.Server.InMemory.InboxLaws.{Ascending, Ascending-append, drop_acknowledged-Ascending}
use pqchat.Server.InMemory.Reachable.{
  Reachable, Step, StoreKept, acquires, authenticate-StoreKept, authenticates, begin-StoreKept,
  begins, drains, enqueues, finish-StoreKept, finishes, goes_on, publishes, register-StoreKept,
  registers, revoke-StoreKept, revokes, starts,
}
use pqchat.Server.InMemory.State.{BundleStore, InMemoryServer, InboxEntry, new_server, value_or}

-- A user's inbox holds ascending ids, none above the last one given out.
abbrev InboxesOrdered : InMemoryServer → Type 0
InboxesOrdered s =
    (user : Bytes) (entries : List InboxEntry)
    → s.inbox user ≡ some entries
    → Ascending 0 (value_or 0 (s.next_inbox_id_by_user user)) entries

pub record Invariant (o : OpenSsl) (s : InMemoryServer) : Type 0 where
  pub verified : AllVerified o s
  pub ordered : InboxesOrdered s

inbox_of :
    (s : InMemoryServer) (user : Bytes)
    → InboxesOrdered s
    → Ascending 0 (value_or 0 (s.next_inbox_id_by_user user)) (value_or [] (s.inbox user))
inbox_of s user h = elim (Option-cases (s.inbox user)) [
  | inl missing ↦ rw missing (omega arith)
  | inr (entries, found) ↦ rw found (h user entries found)
]

acknowledge-Ascending :
    (ack : Option ℕ) (high : ℕ) (entries : List InboxEntry)
    → Ascending 0 high entries
    → Ascending 0 high (acknowledge ack entries)
acknowledge-Ascending none high entries a = a
acknowledge-Ascending (some n) high entries a = drop_acknowledged-Ascending n 0 high entries a

insert_same :
    (user other : Bytes) (n : ℕ) (m : Map ℕ)
    → bytes_eq user other ≡ true
    → insert user n m other ≡ some n
insert_same user other n m same =
    subst (λ k. insert user n m k ≡ some n) (bytes_eq_sound user other same) (insert_self user n m)

module _ (o : OpenSsl) where
  kept-Invariant : (s s' : InMemoryServer) → StoreKept s s' → Invariant o s → Invariant o s'
  kept-Invariant s s' k i = record {
    verified = λ user store e.
        i.verified user store (ap (λ (m : Map BundleStore). m user) (sym k.bundles) ∙ e);
    ordered = λ user entries e.
        subst (λ (m : Map ℕ). Ascending 0 (value_or 0 (m user)) entries) (sym k.next)
          (i.ordered user entries (ap (λ (m : Map (List InboxEntry)). m user) (sym k.inbox) ∙ e));
  }

  stored-Invariant :
      (user : Bytes) (store : BundleStore) (s : InMemoryServer)
      → (verify_prekey_bundle_signatures o store.base_bundle ≡ ok tt)
        × (store.base_bundle.user_id ≡ user)
      → Invariant o s
      → Invariant o (record s { bundles = insert user store s.bundles })
  stored-Invariant user store s v i = record {
    verified = λ other found e. elim (insert-cases user other store found s.bundles e) [
      | inl (here, same) ↦
          subst₂
            (λ k (t : BundleStore).
              (verify_prekey_bundle_signatures o t.base_bundle ≡ ok tt)
              × (t.base_bundle.user_id ≡ k))
            (bytes_eq_sound user other here) same v
      | inr (_, old) ↦ i.verified other found old
    ];
    ordered = i.ordered;
  }

  publish-Invariant :
      (bundle : PrekeyBundle) (s : InMemoryServer)
      → Invariant o s
      → Invariant o (publish_bundle o bundle s).1
  unfolding publish_bundle
  publish-Invariant bundle s i = elim (Result-cases (check_bundle o bundle)) [
    | inl (text, h) ↦ rw (h, publish_bundle) i
    | inr (_, h) ↦
        rw (h, publish_bundle)
          (stored-Invariant bundle.user_id
            (record {
              base_bundle = bundle;
              one_time_ec_pool = bundle.one_time_ec;
              one_time_pq_pool = bundle.one_time_pq;
            })
            s (check_bundle-verified o bundle h, refl) i)
  ]

  acquire-Invariant :
      (user : Bytes) (s : InMemoryServer)
      → Invariant o s
      → Invariant o (acquire_bundle_for_session user s).1
  unfolding acquire_bundle_for_session
  acquire-Invariant user s i = elim (Option-cases (s.bundles user)) [
    | inl missing ↦ rw (missing, acquire_bundle_for_session) i
    | inr (store, found) ↦
        rw (found, acquire_bundle_for_session)
          (stored-Invariant user (hand_out store).1 s
            (subst
              (λ (b : PrekeyBundle).
                (verify_prekey_bundle_signatures o b ≡ ok tt) × (b.user_id ≡ user))
              (sym (hand_out-HandedOut store).base_kept) (i.verified user store found))
            i)
  ]

  enqueue-Invariant :
      (user : Bytes) (envelope : Envelope) (s : InMemoryServer)
      → value_or 0 (s.next_inbox_id_by_user user) + 1 < 2 ^ 64
      → Invariant o s
      → Invariant o (enqueue_envelope user envelope s).1
  unfolding enqueue_envelope
  enqueue-Invariant user envelope s small i = record {
    verified = i.verified;
    ordered = λ other entries e. elim (insert-cases user other _ entries s.inbox e) [
      | inl (same, stored) ↦
          let n = value_or 0 (s.next_inbox_id_by_user user) in
          let longer : Ascending 0 ((n + 1) % 2 ^ 64) entries =
            subst (Ascending 0 ((n + 1) % 2 ^ 64)) stored (
              Ascending-append 0 n ((n + 1) % 2 ^ 64) (value_or [] (s.inbox user))
                (record { inbox_id = (n + 1) % 2 ^ 64; envelope = envelope })
                (inbox_of s user i.ordered) (omega arith) (omega arith)) in
          subst (λ (v : Option ℕ). Ascending 0 (value_or 0 v) entries)
            (sym (insert_same user other ((n + 1) % 2 ^ 64) s.next_inbox_id_by_user same)) longer
      | inr (different, old) ↦
          rw
            (insert_other user other ((value_or 0 (s.next_inbox_id_by_user user) + 1) % 2 ^ 64)
              s.next_inbox_id_by_user different)
            (i.ordered other entries old)
    ];
  }

  drain-Invariant :
      (user : Bytes) (ack : Option ℕ) (s : InMemoryServer)
      → Invariant o s
      → Invariant o (drain_inbox user ack s).1
  unfolding drain_inbox
  drain-Invariant user ack s i = elim (Option-cases (s.inbox user)) [
    | inl missing ↦ rw (missing, drain_inbox) i
    | inr (entries, found) ↦
        rw (found, drain_inbox)
          (record {
            verified = i.verified;
            ordered = λ other left e.
                elim (insert-cases user other (acknowledge ack entries) left s.inbox e) [
                  | inl (same, stored) ↦
                      subst₂ (λ k es. Ascending 0 (value_or 0 (s.next_inbox_id_by_user k)) es)
                        (bytes_eq_sound user other same) stored
                        (acknowledge-Ascending ack _ entries (i.ordered user entries found))
                  | inr (_, old) ↦ i.ordered other left old
                ];
          })
  ]

  Step-Invariant : (s s' : InMemoryServer) → Step o s s' → Invariant o s → Invariant o s'
  Step-Invariant _ _ (registers request s) i = kept-Invariant s _ (register-StoreKept o request s) i
  Step-Invariant _ _ (begins now drawn_id drawn_nonce request s) i =
      kept-Invariant s _ (begin-StoreKept now drawn_id drawn_nonce request s) i
  Step-Invariant _ _ (finishes now drawn request s) i =
      kept-Invariant s _ (finish-StoreKept o now drawn request s) i
  Step-Invariant _ _ (authenticates now token s) i =
      kept-Invariant s _ (authenticate-StoreKept now token s) i
  Step-Invariant _ _ (revokes token s) i = kept-Invariant s _ (revoke-StoreKept token s) i
  Step-Invariant _ _ (publishes bundle s) i = publish-Invariant bundle s i
  Step-Invariant _ _ (acquires user s) i = acquire-Invariant user s i
  Step-Invariant _ _ (enqueues user envelope s small) i = enqueue-Invariant user envelope s small i
  Step-Invariant _ _ (drains user ack s) i = drain-Invariant user ack s i

  -- In every run in which no user's inbox ids wrap, every stored bundle passed the signature checks and
  -- stands under the user that it names, and every inbox holds strictly ascending ids, none above the
  -- last one given out to its user.
  pub Reachable-Invariant :
      (token : Bytes) (s : InMemoryServer) → Reachable o token s → Invariant o s
  unfolding new_server
  Reachable-Invariant token _ starts = record {
    verified = λ user store e. cc;
    ordered = λ user entries e. cc;
  }
  Reachable-Invariant token _ (goes_on s s' r step) =
      Step-Invariant s s' step (Reachable-Invariant token s r)

  -- In every run in which no user's inbox ids wrap, whatever bundle the server hands out names the
  -- user asked for and passes the checks of its six signatures.
  pub acquired_bundle_verified :
      (token user : Bytes) (s after : InMemoryServer) (bundle : PrekeyBundle)
      → Reachable o token s
      → acquire_bundle_for_session user s ≡ (ok bundle, after)
      → (verify_prekey_bundle_signatures o bundle ≡ ok tt) × (bundle.user_id ≡ user)
  acquired_bundle_verified token user s after bundle r e =
      let (store, left, found, kept, given) =
        acquire_bundle_for_session-HandedOut user s after bundle e in
      let (verified, named) = (Reachable-Invariant token s r).verified user store found in
      (
        ap (verify_prekey_bundle_signatures o) given.rest_kept
            ∙ verify-ignores_one_time o store.base_bundle bundle.one_time_ec bundle.one_time_pq
            ∙ verified,
        ap (λ (b : PrekeyBundle). b.user_id) given.rest_kept ∙ named,
      )
