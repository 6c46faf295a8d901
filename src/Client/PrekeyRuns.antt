-- ===== src/Client/PrekeyRuns.antt =====
-- The one-time prekeys in every run of a client of src/client/client.cpp.
use pqchat.Client.Act.{
  call, prefix_act, Keeps, Keeps-bind, Keeps-call, Keeps-prefix, Keeps-returned, Keeps-update,
}
use pqchat.Client.Create.{blank_client, create_new, generate_keys, refill_and_save, sign_prekey}
use pqchat.Client.Handshake.{initiate_session}
use pqchat.Client.Host.{Host}
use pqchat.Client.Identity.{safety_number_of, set_peer, verify_peer_safety_number}
use pqchat.Client.Inbox.{process_inbox}
use pqchat.Client.Chat.{send_message}
use pqchat.Client.InboxKept.{process_inbox-IdsUnique}
use pqchat.Client.PrekeyErased.{moved_on}
use pqchat.Client.PrekeyKept.{
  initiate_session-Keeps, publish_prekeys-Keeps, save-Keeps, send_message-Keeps,
}
use pqchat.Client.PrekeyLaws.{IdsUnique, Unique, refill_one_time_prekey_pools-IdsUnique}
use pqchat.Client.Prekeys.{publish_prekeys}
use pqchat.Client.State.{Client}
use pqchat.Crypto.Evp.{KeyPair}
use pqchat.Prelude.{Bool-cases, Bytes, Option-cases, String, bytes_eq, inl, inr, refl}
use pqchat.Result.{Result, Result-cases}

module _ {W : Type 0} (host : Host W) where
  refill_and_save-Keeps : (text : String) → Keeps Unique (refill_and_save host text)
  unfolding refill_and_save
  refill_and_save-Keeps text =
      Keeps-bind Unique
        (Keeps-prefix Unique text (record { keeps = refill_one_time_prekey_pools-IdsUnique host }))
        λ _. save-Keeps host _

  sign_prekey-Keeps :
      (sign mldsa : KeyPair) (input : Bytes) (failed failed_mldsa : String)
      → Keeps Unique (sign_prekey host sign mldsa input failed failed_mldsa)
  unfolding sign_prekey
  sign_prekey-Keeps sign mldsa input failed failed_mldsa =
      Keeps-bind Unique (Keeps-returned Unique _) λ signature.
        Keeps-bind Unique (Keeps-prefix Unique _ (Keeps-call Unique _ (λ c w u. u)))
          λ _. Keeps-returned Unique _

  create_new-Keeps : Keeps Unique (create_new host)
  unfolding create_new generate_keys
  create_new-Keeps =
      Keeps-bind Unique
        (Keeps-bind Unique (drawn _ _) λ sign. Keeps-bind Unique (drawn _ _) λ mldsa.
          Keeps-bind Unique (drawn _ _) λ dh. Keeps-bind Unique (drawn _ _) λ ec.
            Keeps-bind Unique (sign_prekey-Keeps sign mldsa _ _ _) λ ec_signed.
              Keeps-bind Unique (drawn _ _) λ pq.
                Keeps-bind Unique (sign_prekey-Keeps sign mldsa _ _ _)
                  λ pq_signed. Keeps-update Unique _ (λ c w u. moved_on u refl refl))
        λ _. refill_and_save-Keeps _
    where
      drawn :
          (prefix : String) (f : W → Result KeyPair × W) → Keeps Unique (prefix_act prefix (call f))
      drawn prefix f = Keeps-prefix Unique prefix (Keeps-call Unique f (λ c w u. u))

  blank_client-IdsUnique : (user_id path : Bytes) → IdsUnique (blank_client user_id path)
  unfolding blank_client
  blank_client-IdsUnique user_id path = record { ec = tt; pq = tt; apart = λ k. refl }

  verify_peer_safety_number-Keeps :
      (peer number : Bytes) → Keeps Unique (verify_peer_safety_number host peer number)
  unfolding verify_peer_safety_number set_peer
  verify_peer_safety_number-Keeps peer number = record {
    keeps = λ c w u. elim (Option-cases (c.trusted_peer_identities peer)) [
      | inl unknown ↦ rw (verify_peer_safety_number, unknown) u
      | inr (known, is) ↦ elim (Result-cases (safety_number_of host peer known)) [
        | inl (text, failed) ↦ rw (verify_peer_safety_number, is, failed) u
        | inr (computed, hashed) ↦ elim (Bool-cases (bytes_eq computed number)) [
          | inl same ↦ rw (verify_peer_safety_number, is, hashed, same) (moved_on u refl refl)
          | inr other ↦ rw (verify_peer_safety_number, is, hashed, other) u
        ]
      ]
    ];
  }

  -- What a client is asked to do: the public functions of Client that are not const.
  pub data Method : Type 0 where
    publishes : Method
    initiates : (peer_user initial_plaintext : Bytes) → Method
    sends : (peer_user plaintext : Bytes) → Method
    processes : Method
    verifies : (peer_user expected_safety_number : Bytes) → Method

  -- The client and the surroundings that a call leaves, whatever it returns.
  abbrev pub perform : Method → Client → W → Client × W
  perform publishes c w = (publish_prekeys host c w).1
  perform (initiates peer text) c w = (initiate_session host peer text c w).1
  perform (sends peer text) c w = (send_message host peer text c w).1
  perform processes c w = (process_inbox host c w).1
  perform (verifies peer number) c w = (verify_peer_safety_number host peer number c w).1

  -- The states of a client that has no stored state: what its creation leaves, then calls of its methods,
  -- each in surroundings that others may have changed.
  pub data Run : Client × W → Type 0 where
    created : (user_id path : Bytes) (w : W) → Run (create_new host (blank_client user_id path) w).1
    called :
        {c : Client} {before : W} → Run (c, before) → (m : Method) (w : W) → Run (perform m c w)

  perform-IdsUnique : (m : Method) (c : Client) (w : W) → IdsUnique c → IdsUnique (perform m c w).0
  perform-IdsUnique publishes c w u = (publish_prekeys-Keeps host).keeps c w u
  perform-IdsUnique (initiates peer text) c w u =
      (initiate_session-Keeps host peer text).keeps c w u
  perform-IdsUnique (sends peer text) c w u = (send_message-Keeps host peer text).keeps c w u
  perform-IdsUnique processes c w u = process_inbox-IdsUnique host c w u
  perform-IdsUnique (verifies peer number) c w u =
      (verify_peer_safety_number-Keeps peer number).keeps c w u

  -- From its creation without a stored state on, and whatever is drawn, sent, received or refused, no two
  -- one-time prekeys of a client share an id, in a pool or between the two. (A stored state is outside of
  -- this: LoadLocalState takes its ids unchecked.)
  pub Run-IdsUnique : (s : Client × W) → Run s → IdsUnique s.0
  Run-IdsUnique _ (created user_id path w) =
      create_new-Keeps.keeps (blank_client user_id path) w (blank_client-IdsUnique user_id path)
  Run-IdsUnique _ (called {c} {before} r m w) =
      perform-IdsUnique m c w (Run-IdsUnique (c, before) r)
