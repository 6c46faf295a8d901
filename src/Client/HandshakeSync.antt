-- ===== src/Client/HandshakeSync.antt =====
-- Both sides of the handshake of src/client/client.cpp.
use pqchat.Client.Accept.{find_ec, find_pq}
use pqchat.Client.Handshake.{first_of}
use pqchat.Client.Host.{Host}
use pqchat.Client.State.{Client, OneTimeEc, OneTimePq}
use pqchat.Client.SyncLaws.{IsX25519, shared_secret_agreed}
use pqchat.Crypto.Evp.{EncapResult, KeyPair}
use pqchat.Crypto.Keys.{
  drawn_after-drawn, mlkem_decapsulate, mlkem_encapsulate, x25519_shared_secret,
}
use pqchat.Prelude.{Bytes, arith, some, sym, ◌∙◌, ◌≡◌}
use pqchat.Protocol.PrekeyBundle.{OneTimePrekeyEc, OneTimePrekeyPq, PrekeyBundle}
use pqchat.Result.{ok, ok-injective}

-- ML-KEM of OpenSSL: which keys belong together, and that what was encapsulated is found again.
pub record IsKem {W : Type 0} (host : Host W) : Type 1 where
  pub Pair : KeyPair → Type 0
  pub found_again :
      (pair : KeyPair) (w after : W) (made : EncapResult)
      → Pair pair
      → host.evp.encapsulate pair.public_key w ≡ (some made, after)
      → host.evp.decapsulate pair.private_key made.ciphertext ≡ some made.shared_secret

module _ {W : Type 0} {host : Host W} (dh : IsX25519 host) (kem : IsKem host) where
  -- The bundle that `bob` publishes: his keys, with the one-time prekeys that his pools hold.
  pub record Owned (bob : Client) (bundle : PrekeyBundle) : Type 0 where
    pub identity : bundle.identity_dh_public_key ≡ bob.identity_dh_key.public_key
    pub identity_pair : dh.Pair bob.identity_dh_key
    pub ec : bundle.signed_prekey_ec.public_key ≡ bob.signed_prekey_ec_private.public_key
    pub ec_pair : dh.Pair bob.signed_prekey_ec_private
    pub pq : bundle.signed_prekey_pq.public_key ≡ bob.signed_prekey_pq_private.public_key
    pub pq_pair : kem.Pair bob.signed_prekey_pq_private
    pub one_time_ec :
        (key : OneTimePrekeyEc) (own : OneTimeEc)
        → first_of bundle.one_time_ec ≡ some key
        → find_ec key.id bob.one_time_ec_pool ≡ some own
        → (key.public_key ≡ own.private_part.public_key) × dh.Pair own.private_part
    pub one_time_pq :
        (key : OneTimePrekeyPq) (own : OneTimePq)
        → first_of bundle.one_time_pq ≡ some key
        → find_pq key.id bob.one_time_pq_pool ≡ some own
        → (key.public_key ≡ own.private_part.public_key) × kem.Pair own.private_part

  pub same_secret :
      (p q : KeyPair) (peer x y : Bytes)
      → dh.Pair p
      → dh.Pair q
      → peer ≡ q.public_key
      → x25519_shared_secret host.openssl host.evp p.private_key peer ≡ ok x
      → x25519_shared_secret host.openssl host.evp q.private_key p.public_key ≡ ok y
      → x ≡ y
  same_secret p q peer x y hp hq is ex ey =
      ok-injective (sym ex ∙ rw is (shared_secret_agreed dh p q hp hq) ∙ ey)

  encapsulated :
      (public_key : Bytes) (w after : W) (made : EncapResult)
      → mlkem_encapsulate host.openssl host.evp public_key w ≡ (ok made, after)
      → host.evp.encapsulate public_key w ≡ (some made, after)
  unfolding mlkem_encapsulate
  encapsulated public_key w after made e =
      drawn_after-drawn _ _ (host.evp.encapsulate public_key) w e

  pub same_kem :
      (pair : KeyPair) (public_key x : Bytes) (w after : W) (made : EncapResult)
      → kem.Pair pair
      → public_key ≡ pair.public_key
      → mlkem_encapsulate host.openssl host.evp public_key w ≡ (ok made, after)
      → mlkem_decapsulate host.openssl host.evp pair.private_key made.ciphertext ≡ ok x
      → made.shared_secret ≡ x
  unfolding mlkem_decapsulate
  same_kem pair public_key x w after made h is e d =
      let again =
        kem.found_again pair w after made h (rw (← is) (encapsulated public_key w after made e)) in
      ground arith
