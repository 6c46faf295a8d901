-- ===== src/Server/InMemory/BundleLaws.antt =====
-- What PublishBundle lets in and AcquireBundleForSession hands out, in
-- src/server/in_memory_server.cpp.
use pqchat.Crypto.{OpenSsl}
use pqchat.Prelude.{
  Bytes, List, Option-cases, [], arith, inl, inr, insert_self, length, min, refl, some, subst, sym,
  ◌++◌, ◌∷◌, ◌≡◌,
}
use pqchat.Protocol.PrekeyBundle.{OneTimePrekeyEc, OneTimePrekeyPq, PrekeyBundle}
use pqchat.Protocol.SignInputs.{
  build_bundle_sign_input, verify_prekey_bundle_signatures, verify_signatures,
}
use pqchat.Result.{ok}
use pqchat.Server.InMemory.Bundles.{acquire_bundle_for_session, check_bundle, hand_out}
use pqchat.Server.InMemory.State.{BundleStore, InMemoryServer}

-- The signatures do not cover the one-time prekeys: whatever these are, the checks are the same.
pub verify-ignores_one_time :
    (o : OpenSsl) (bundle : PrekeyBundle) (ec : List OneTimePrekeyEc) (pq : List OneTimePrekeyPq)
    → verify_prekey_bundle_signatures o (record bundle { one_time_ec = ec; one_time_pq = pq })
      ≡ verify_prekey_bundle_signatures o bundle
unfolding verify_prekey_bundle_signatures verify_signatures build_bundle_sign_input
verify-ignores_one_time o bundle ec pq = refl

-- What handing out moves: one prekey from the front of each pool, or none.
pub record HandedOut (store : BundleStore) (bundle : PrekeyBundle) (left : BundleStore)
    : Type 0 where
  pub ec_moved : bundle.one_time_ec ++ left.one_time_ec_pool ≡ store.one_time_ec_pool
  pub pq_moved : bundle.one_time_pq ++ left.one_time_pq_pool ≡ store.one_time_pq_pool
  pub in_pairs : length bundle.one_time_ec ≡ length bundle.one_time_pq
  pub as_many :
      length bundle.one_time_ec
      ≡ min 1 (min (length store.one_time_ec_pool) (length store.one_time_pq_pool))
  pub base_kept : left.base_bundle ≡ store.base_bundle
  pub rest_kept : bundle ≡ record store.base_bundle {
    one_time_ec = bundle.one_time_ec;
    one_time_pq = bundle.one_time_pq;
  }

pub hand_out-HandedOut :
    (store : BundleStore) → HandedOut store (hand_out store).0 (hand_out store).1
unfolding hand_out
hand_out-HandedOut store = go store.base_bundle store.one_time_ec_pool store.one_time_pq_pool
  where
    go :
        (base : PrekeyBundle) (ecs : List OneTimePrekeyEc) (pqs : List OneTimePrekeyPq)
        → let s : BundleStore = record {
          base_bundle = base;
          one_time_ec_pool = ecs;
          one_time_pq_pool = pqs;
        } in
          HandedOut s (hand_out s).0 (hand_out s).1
    go base [] pqs = record {
      ec_moved = refl;
      pq_moved = refl;
      in_pairs = refl;
      as_many = omega arith;
      base_kept = refl;
      rest_kept = refl;
    }
    go base (ec ∷ ecs) [] = record {
      ec_moved = refl;
      pq_moved = refl;
      in_pairs = refl;
      as_many = omega arith;
      base_kept = refl;
      rest_kept = refl;
    }
    go base (ec ∷ ecs) (pq ∷ pqs) = record {
      ec_moved = refl;
      pq_moved = refl;
      in_pairs = refl;
      as_many = omega arith;
      base_kept = refl;
      rest_kept = refl;
    }

-- A successful call hands out the stored bundle of the user, with one one-time prekey of each kind
-- where both pools have one and none otherwise; what it hands out is gone from the front of the pools,
-- and the rest stays in its order.
pub acquire_bundle_for_session-HandedOut :
    (user_id : Bytes) (server after : InMemoryServer) (bundle : PrekeyBundle)
    → acquire_bundle_for_session user_id server ≡ (ok bundle, after)
    → (store : BundleStore) × (left : BundleStore) × (server.bundles user_id ≡ some store)
      × (after.bundles user_id ≡ some left)
      × HandedOut store bundle left
unfolding acquire_bundle_for_session
acquire_bundle_for_session-HandedOut user_id server after bundle e =
    elim (Option-cases (server.bundles user_id)) [
      | inl missing ↦ absurd (ground arith)
      | inr (store, found) ↦
          let same : bundle ≡ (hand_out store).0 = ground arith in
          let kept : after.bundles user_id ≡ some (hand_out store).1 =
            ground (arith, insert_self user_id (hand_out store).1 server.bundles) in
          (
            store,
            (hand_out store).1,
            found,
            kept,
            subst (λ b. HandedOut store b (hand_out store).1) (sym same) (hand_out-HandedOut store),
          )
    ]

-- Every stored bundle passed the signature checks and stands under the user that it names.
abbrev pub AllVerified : OpenSsl → InMemoryServer → Type 0
AllVerified o server =
    (user : Bytes) (store : BundleStore)
    → server.bundles user ≡ some store
    → (verify_prekey_bundle_signatures o store.base_bundle ≡ ok tt)
      × (store.base_bundle.user_id ≡ user)

pub check_bundle-verified :
    (o : OpenSsl) (bundle : PrekeyBundle)
    → check_bundle o bundle ≡ ok tt
    → verify_prekey_bundle_signatures o bundle ≡ ok tt
unfolding check_bundle
check_bundle-verified o bundle e = ground arith
