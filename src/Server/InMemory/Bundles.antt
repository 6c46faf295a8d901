-- ===== src/Server/InMemory/Bundles.antt =====
-- PublishBundle and AcquireBundleForSession of src/server/in_memory_server.cpp.
use pqchat.Crypto.{OpenSsl, check}
use pqchat.Prelude.{Bytes, [], bytes_eq, concat, insert, none, some, ◌∷◌}
use pqchat.Protocol.PrekeyBundle.{PrekeyBundle}
use pqchat.Protocol.SignInputs.{cipher_suite, protocol_version, verify_prekey_bundle_signatures}
use pqchat.Result.{Result, err, ok, ◌>>◌}
use pqchat.Server.InMemory.State.{BundleStore, InMemoryServer, Outcome}

module _ (o : OpenSsl) where
  unfoldable pub check_bundle : PrekeyBundle → Result (Unit {0})
  check_bundle bundle = do
    check (bytes_eq bundle.version protocol_version) "unsupported bundle version"
    check (bytes_eq bundle.cipher_suite cipher_suite) "unsupported bundle cipher suite"
    elim (verify_prekey_bundle_signatures o bundle) [
      | ok _ ↦ ok tt
      | err text ↦ err (concat "invalid prekey bundle signatures: " text)
    ]

  unfoldable pub publish_bundle : PrekeyBundle → InMemoryServer → Outcome (Unit {0})
  publish_bundle bundle server = elim (check_bundle bundle) [
    | err text ↦ (err text, server)
    | ok _ ↦ (
      ok tt,
      record server {
        bundles =
            insert bundle.user_id
              (record {
                base_bundle = bundle;
                one_time_ec_pool = bundle.one_time_ec;
                one_time_pq_pool = bundle.one_time_pq;
              })
              server.bundles;
      },
    )
  ]

-- One prekey of each pool where both have one, and none where either is empty.
unfoldable pub hand_out : BundleStore → PrekeyBundle × BundleStore
hand_out store = elim store.one_time_ec_pool [
  | [] ↦ (record store.base_bundle { one_time_ec = []; one_time_pq = [] }, store)
  | ec ∷ ecs ↦ elim store.one_time_pq_pool [
    | [] ↦ (record store.base_bundle { one_time_ec = []; one_time_pq = [] }, store)
    | pq ∷ pqs ↦ (
      record store.base_bundle { one_time_ec = ec ∷ []; one_time_pq = pq ∷ [] },
      record store { one_time_ec_pool = ecs; one_time_pq_pool = pqs },
    )
  ]
]

unfoldable pub acquire_bundle_for_session : Bytes → InMemoryServer → Outcome PrekeyBundle
acquire_bundle_for_session user_id server = elim (server.bundles user_id) [
  | none ↦ (err "no prekey bundle for user", server)
  | some store ↦
      let (bundle, left) = hand_out store in
      (ok bundle, record server { bundles = insert user_id left server.bundles })
]
