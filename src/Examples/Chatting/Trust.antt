-- ===== src/Examples/Chatting/Trust.antt =====
-- Guards, identities, prekeys, the inbox and the saved state in examples: src/client/client.cpp.
use pqchat.Client.GuardSafety.{
  GuardsAgree, remember_initial_replay_guards-GuardsAgree, remembered_iff,
}
use pqchat.Client.Identity.{
  check_peer, compute_safety_number, has_keys, verify_or_remember_peer_identity,
}
use pqchat.Client.IdentityLaws.{
  Trusted, verify_or_remember_peer_identity-Trusted, verify_or_remember_peer_identity-pinned,
}
use pqchat.Client.State.{Client}
use pqchat.Client.Inbox.{Progress, handle_batch}
use pqchat.Client.InboxLaws.{Handled, handle_batch-Handled}
use pqchat.Client.KeySchedule.{derive_handshake_keys}
use pqchat.Client.LocalState.FileLaws.{Ended, write_loop_finishes}
use pqchat.Client.LocalState.Files.{write_loop}
use pqchat.Client.LocalState.Sealed.{
  derive_state_encryption_key, encrypt_state_payload, encrypt_with_salt, read_state_passphrase,
  seal_payload, unwrap_state_payload, wrapped,
}
use pqchat.Client.LocalState.SealedLaws.{unwrap_state_payload-encrypt_state_payload}
use pqchat.Client.Create.{blank_client, create_new}
use pqchat.Client.PrekeyLaws.{IdsUnique}
use pqchat.Client.PrekeyRuns.{Run-IdsUnique, called, created, perform, processes}
use pqchat.Client.ReplayGuards.{has_seen_initial_replay_guard, remember_initial_replay_guards}
use pqchat.Client.ScheduleLaws.{derive_handshake_keys-mirrored, mirrored_result}
use pqchat.Crypto.{sha256}
use pqchat.Crypto.Aead.{seal}
use pqchat.Examples.Chatting.Host.{alice, bob, known_peer, toy_host}
use pqchat.Examples.Chatting.Library.{toy_cipher, zeros}
use pqchat.Examples.Chatting.Messages.{numbered, receiver}
use pqchat.Examples.Chatting.Sessions.{guarded}
use pqchat.Prelude.{
  Bytes, List, [], arith, bytes_eq, codes, false, insert, length, none, refl, some, true, ◌<◌, ◌^◌,
  ◌↔◌, ◌∷◌, ◌≡◌,
}
use pqchat.Protocol.Messages.{InboxEnvelope, from_chat}
use pqchat.Protocol.Serialization.Writer.{write_bytes, write_string, write_u32, write_u8}
use pqchat.Result.{Result, err, ok}

remember_initial_replay_guards-GuardsAgree_example :
    GuardsAgree (remember_initial_replay_guards (codes "s") (codes "t") bob.guards).1
remember_initial_replay_guards-GuardsAgree_example =
    remember_initial_replay_guards-GuardsAgree (codes "s") (codes "t") bob.guards guarded

remembered_iff_example :
    (((remember_initial_replay_guards (codes "s") (codes "t") bob.guards).0 ≡ ok tt)
      ↔ (has_seen_initial_replay_guard (codes "s") (codes "t") bob.guards ≡ false))
    × (has_seen_initial_replay_guard
          (codes "s")
          (codes "t")
          (remember_initial_replay_guards (codes "s") (codes "t") bob.guards).1
        ≡ true)
remembered_iff_example = remembered_iff (codes "s") (codes "t") bob.guards guarded

abbrev unchanged : Client × Unit {0}
unchanged = (alice, tt)

trusted :
    verify_or_remember_peer_identity toy_host (codes "bo") (1 ∷ []) (2 ∷ []) (3 ∷ []) alice tt
    ≡ (ok tt, unchanged)
unfolding has_keys compute_safety_number check_peer verify_or_remember_peer_identity sha256 bytes_eq
    insert
trusted = refl

verify_or_remember_peer_identity-Trusted_example :
    Trusted toy_host (codes "bo") (1 ∷ []) (2 ∷ []) (3 ∷ []) alice × (unchanged ≡ unchanged)
verify_or_remember_peer_identity-Trusted_example =
    verify_or_remember_peer_identity-Trusted toy_host (codes "bo") (1 ∷ []) (2 ∷ []) (3 ∷ []) alice
      tt unchanged trusted

known : alice.trusted_peer_identities (codes "bo") ≡ some known_peer
unfolding insert bytes_eq
known = refl

verify_or_remember_peer_identity-pinned_example :
    (verify_or_remember_peer_identity toy_host
        (codes "zz")
        (4 ∷ [])
        (5 ∷ [])
        (6 ∷ [])
        alice
        tt).1.0.trusted_peer_identities
      (codes "bo")
    ≡ some known_peer
verify_or_remember_peer_identity-pinned_example =
    verify_or_remember_peer_identity-pinned toy_host (codes "zz") (4 ∷ []) (5 ∷ []) (6 ∷ []) alice
      tt (codes "bo") known_peer known

-- A client without a stored state.
abbrev made : Client × Unit {0}
made = (create_new toy_host (blank_client (codes "cy") (codes "/s/y.bin")) tt).1

Run-IdsUnique_example : IdsUnique (perform toy_host processes made.0 tt).0
Run-IdsUnique_example =
    Run-IdsUnique toy_host (perform toy_host processes made.0 tt)
      (called (created (codes "cy") (codes "/s/y.bin") tt) processes tt)

-- The second is a replay of the first.
abbrev batch : List InboxEnvelope
batch =
    record { inbox_id = 4; envelope = from_chat (numbered 1) }
    ∷ record { inbox_id = 5; envelope = from_chat (numbered 1) }
    ∷ []

abbrev nothing_yet : Progress
nothing_yet = record { plaintexts = []; first_error = none; ack_to_send = none }

handle_batch-Handled_example :
    Handled toy_host batch nothing_yet none
      (receiver 1)
      tt
      (handle_batch toy_host batch nothing_yet none (receiver 1) tt)
handle_batch-Handled_example = handle_batch-Handled toy_host batch nothing_yet none (receiver 1) tt

abbrev bytes_of : Result Bytes → Bytes
bytes_of (ok bytes) = bytes
bytes_of (err text) = []

abbrev sealed : Bytes
sealed = bytes_of (encrypt_state_payload toy_host (codes "state") tt).0

sealed_is : encrypt_state_payload toy_host (codes "state") tt ≡ (ok sealed, tt)
unfolding read_state_passphrase derive_state_encryption_key seal_payload encrypt_with_salt
    encrypt_state_payload seal
sealed_is = refl

sealed_short : length sealed < 2 ^ 32
unfolding read_state_passphrase derive_state_encryption_key wrapped seal_payload encrypt_with_salt
    encrypt_state_payload seal write_u8 write_u32 write_bytes write_string
sealed_short = omega arith

unwrap_state_payload-encrypt_state_payload_example :
    unwrap_state_payload toy_host sealed tt ≡ ok (codes "state")
unwrap_state_payload-encrypt_state_payload_example =
    unwrap_state_payload-encrypt_state_payload toy_host (codes "state") sealed tt tt tt toy_cipher
      sealed_is refl sealed_short

write_loop_finishes_example :
    Ended toy_host
      (codes "/tmp/s")
      (codes "abc")
      tt
      (write_loop toy_host 3 (codes "/tmp/s") (codes "abc") tt)
write_loop_finishes_example =
    write_loop_finishes toy_host (codes "/tmp/s") (λ left w h. h) 3 (codes "abc") tt (omega arith)

derive_handshake_keys-mirrored_example :
    derive_handshake_keys toy_host (codes "secret") (zeros 2) false
    ≡ mirrored_result (derive_handshake_keys toy_host (codes "secret") (zeros 2) true)
derive_handshake_keys-mirrored_example =
    derive_handshake_keys-mirrored toy_host (codes "secret") (zeros 2)
