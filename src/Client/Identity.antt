-- ===== src/Client/Identity.antt =====
-- Peer identities: ComputeSafetyNumber, GetPeerSafetyNumber, VerifyPeerSafetyNumber and
-- VerifyOrRememberPeerIdentity of src/client/client.cpp.
use pqchat.Client.Act.{Act, fail, prefix_act, returned}
use pqchat.Client.Host.{Host}
use pqchat.Client.LocalState.Save.{save, save_local_state}
use pqchat.Client.State.{Client, PeerIdentity}
use pqchat.Crypto.{sha256}
use pqchat.Prelude.{
  Bool, Bytes, String, bytes_eq, codes, concat, false, if◌then◌else◌, insert, none, not, some,
  to_text, true, ◌&&◌,
}
use pqchat.Protocol.Serialization.Envelopes.{take_written}
use pqchat.Protocol.Serialization.Writer.{write_bytes, ◌>>◌}
use pqchat.Result.{Result, err, ok, ◌>>=◌ as and_then}
use pqchat.Server.InMemory.Hex.{to_hex}

-- Its own append_u32 and append_bytes are the methods of the Writer again.
unfoldable pub safety_number_input : Bytes → Bytes → Bytes → Bytes → Bytes
safety_number_input peer_user sign_public_key mldsa_public_key dh_public_key = take_written do
  write_bytes (codes "pqchat_peer_safety_number_v1")
  write_bytes peer_user
  write_bytes sign_public_key
  write_bytes mldsa_public_key
  write_bytes dh_public_key

-- `existing->second` has the three keys.
unfoldable pub has_keys : PeerIdentity → Bytes → Bytes → Bytes → Bool
has_keys peer sign_public_key mldsa_public_key dh_public_key =
    bytes_eq peer.sign_public_key sign_public_key
    && bytes_eq peer.mldsa_public_key mldsa_public_key
    && bytes_eq peer.dh_public_key dh_public_key

abbrev not_verified : Bytes → String
not_verified number = concat "peer identity is not verified; safety number: " (to_text number)

module _ {W : Type 0} (host : Host W) where
  unfoldable pub compute_safety_number : Bytes → Bytes → Bytes → Bytes → Result Bytes
  compute_safety_number peer_user sign_public_key mldsa_public_key dh_public_key =
      and_then
        (sha256 host.openssl
          (safety_number_input peer_user sign_public_key mldsa_public_key dh_public_key))
        λ hash. ok (to_hex hash)

  unfoldable pub safety_number_of : Bytes → PeerIdentity → Result Bytes
  safety_number_of peer_user peer =
      compute_safety_number peer_user peer.sign_public_key peer.mldsa_public_key peer.dh_public_key

  unfoldable pub get_peer_safety_number : Bytes → Client → Result Bytes
  get_peer_safety_number peer_user client = elim (client.trusted_peer_identities peer_user) [
    | none ↦ err "peer identity not known"
    | some peer ↦ safety_number_of peer_user peer
  ]

  unfoldable pub set_peer : Bytes → PeerIdentity → Client → Client
  set_peer peer_user peer client = record client {
    trusted_peer_identities = insert peer_user peer client.trusted_peer_identities;
  }

  unfoldable pub verify_peer_safety_number : Bytes → Bytes → Act W (Unit {0})
  verify_peer_safety_number peer_user expected_safety_number client w =
      elim (client.trusted_peer_identities peer_user) [
        | none ↦ fail "peer identity not known" client w
        | some peer ↦ elim (safety_number_of peer_user peer) [
          | err text ↦ fail text client w
          | ok computed ↦ elim (bytes_eq computed expected_safety_number) [
            | false ↦ fail "peer safety number mismatch" client w
            | true ↦
                prefix_act "persist local state failed: " (save host)
                  (set_peer peer_user (record peer { verified = true }) client) w
          ]
        ]
      ]

  -- What is returned when the peer has been stored.
  abbrev pub unverified_after : Bytes → Result (Unit {0}) → Result (Unit {0})
  unverified_after number (err text) = err (concat "persist local state failed: " text)
  unverified_after number (ok _) = err (not_verified number)

  unfoldable pub remember_peer : Bytes → PeerIdentity → Bytes → Act W (Unit {0})
  remember_peer peer_user peer number client w =
      let client' = set_peer peer_user peer client in
      let (r, w') = save_local_state host client' w in (unverified_after number r, (client', w'))

  unfoldable pub check_peer : PeerIdentity → Bytes → Bytes → Bytes → Bytes → Result (Unit {0})
  check_peer peer sign_public_key mldsa_public_key dh_public_key number =
      if not (has_keys peer sign_public_key mldsa_public_key dh_public_key)
      then err "peer identity key mismatch for trusted contact"
      else if not peer.verified
      then err (not_verified number)
      else ok tt

  unfoldable pub verify_or_remember_peer_identity : Bytes → Bytes → Bytes → Bytes → Act W (Unit {0})
  verify_or_remember_peer_identity peer_user sign_public_key mldsa_public_key dh_public_key client
        w =
      elim (compute_safety_number peer_user sign_public_key mldsa_public_key dh_public_key) [
        | err text ↦ fail text client w
        | ok number ↦ elim (client.trusted_peer_identities peer_user) [
          | some peer ↦
              returned (check_peer peer sign_public_key mldsa_public_key dh_public_key number)
                client w
          | none ↦
              remember_peer peer_user
                (record {
                  sign_public_key = sign_public_key;
                  mldsa_public_key = mldsa_public_key;
                  dh_public_key = dh_public_key;
                  verified = false;
                })
                number client w
        ]
      ]
