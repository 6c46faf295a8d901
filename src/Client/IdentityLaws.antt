-- ===== src/Client/IdentityLaws.antt =====
-- Trust in the identity keys of a peer: src/client/client.cpp.
use pqchat.Client.Host.{Host}
use pqchat.Client.Identity.{
  check_peer, compute_safety_number, has_keys, remember_peer, set_peer, unverified_after,
  verify_or_remember_peer_identity,
}
use pqchat.Client.State.{Client, PeerIdentity}
use pqchat.Prelude.{
  Bool-cases, Bytes, Option-cases, String, ap, arith, bytes_eq, bytes_eq_sound, false, inl, inr,
  insert_other, none, refl, some, sym, true, ◌∙◌, ◌≡◌, ◌⊎◌,
}
use pqchat.Result.{Result, Result-cases, err, ok}

module _ {W : Type 0} (host : Host W) where
  -- A known peer with these keys, whose safety number was verified.
  pub record Trusted (peer_user sign mldsa dh : Bytes) (c : Client) : Type 0 where
    pub peer : PeerIdentity
    pub known : c.trusted_peer_identities peer_user ≡ some peer
    pub same_sign : peer.sign_public_key ≡ sign
    pub same_mldsa : peer.mldsa_public_key ≡ mldsa
    pub same_dh : peer.dh_public_key ≡ dh
    pub verified : peer.verified ≡ true

  has_keys-same :
      (peer : PeerIdentity) (sign mldsa dh : Bytes)
      → has_keys peer sign mldsa dh ≡ true
      → (peer.sign_public_key ≡ sign) × (peer.mldsa_public_key ≡ mldsa) × (peer.dh_public_key ≡ dh)
  unfolding has_keys
  has_keys-same peer sign mldsa dh e = (
    bytes_eq_sound peer.sign_public_key sign (ground arith),
    bytes_eq_sound peer.mldsa_public_key mldsa (ground arith),
    bytes_eq_sound peer.dh_public_key dh (ground arith),
  )

  module _ (peer_user sign mldsa dh : Bytes) where
    checked_peer :
        (peer : PeerIdentity) (number : Bytes)
        → check_peer host peer sign mldsa dh number ≡ ok tt
        → (has_keys peer sign mldsa dh ≡ true) × (peer.verified ≡ true)
    unfolding check_peer
    checked_peer peer number e = ground arith

    abbrev pub new_peer : PeerIdentity
    new_peer = record {
      sign_public_key = sign;
      mldsa_public_key = mldsa;
      dh_public_key = dh;
      verified = false;
    }

    -- The three ways that a call takes.
    pub data Way (c : Client) (w : W) : Type 0 where
      hash_failed :
          (text : String)
          → verify_or_remember_peer_identity host peer_user sign mldsa dh c w ≡ (err text, (c, w))
          → Way c w
      stranger :
          (number : Bytes)
          → c.trusted_peer_identities peer_user ≡ none
          → verify_or_remember_peer_identity host peer_user sign mldsa dh c w
            ≡ remember_peer host peer_user new_peer number c w
          → Way c w
      acquaintance :
          (number : Bytes) (peer : PeerIdentity)
          → c.trusted_peer_identities peer_user ≡ some peer
          → verify_or_remember_peer_identity host peer_user sign mldsa dh c w
            ≡ (check_peer host peer sign mldsa dh number, (c, w))
          → Way c w

    pub way : (c : Client) (w : W) → Way c w
    unfolding verify_or_remember_peer_identity
    way c w =
        go (Result-cases (compute_safety_number host peer_user sign mldsa dh))
          (Option-cases (c.trusted_peer_identities peer_user))
      where
        go :
            ((text : String) × (compute_safety_number host peer_user sign mldsa dh ≡ err text))
              ⊎ ((number : Bytes) × (compute_safety_number host peer_user sign mldsa dh
                    ≡ ok number))
            → (c.trusted_peer_identities peer_user ≡ none)
              ⊎ ((peer : PeerIdentity) × (c.trusted_peer_identities peer_user ≡ some peer))
            → Way c w
        go (inl (text, e)) known = hash_failed text (rw (verify_or_remember_peer_identity, e) refl)
        go (inr (number, e)) (inl unknown) =
            stranger number unknown (rw (verify_or_remember_peer_identity, e, unknown) refl)
        go (inr (number, e)) (inr (peer, known)) =
            acquaintance number peer known (rw (verify_or_remember_peer_identity, e, known) refl)

    never_ok : (number : Bytes) (r : Result (Unit {0})) → unverified_after host number r ≡ ok tt → ⊥
    never_ok number (ok _) e = cc
    never_ok number (err text) e = cc

    -- The identity of a peer passes only if the peer was known with exactly these keys and its safety
    -- number had been verified; then nothing changes.
    pub verify_or_remember_peer_identity-Trusted :
        (c : Client) (w : W) (s : Client × W)
        → verify_or_remember_peer_identity host peer_user sign mldsa dh c w ≡ (ok tt, s)
        → Trusted peer_user sign mldsa dh c × (s ≡ (c, w))
    unfolding remember_peer
    verify_or_remember_peer_identity-Trusted c w s e = elim (way c w) [
      | hash_failed text is ↦ absurd (cc (is, e))
      | stranger number unknown is ↦ absurd (never_ok number _ (ap (λ o. o.0) (sym is ∙ e)))
      | acquaintance number peer known is ↦
          let both = sym is ∙ e in
          let (keys, verified) = checked_peer peer number (ap (λ o. o.0) both) in
          let (same_sign, same_mldsa, same_dh) = has_keys-same peer sign mldsa dh keys in
          (
            record {
              peer = peer;
              known = known;
              same_sign = same_sign;
              same_mldsa = same_mldsa;
              same_dh = same_dh;
              verified = verified;
            },
            sym (ap (λ o. o.1) both),
          )
    ]

    -- Whatever keys a peer shows, what is stored of a peer that is known stays: the keys that were seen
    -- first, and whether they were verified.
    pub verify_or_remember_peer_identity-pinned :
        (c : Client) (w : W) (user : Bytes) (peer : PeerIdentity)
        → c.trusted_peer_identities user ≡ some peer
        → (verify_or_remember_peer_identity host peer_user sign mldsa dh c
              w).1.0.trusted_peer_identities
            user
          ≡ some peer
    unfolding remember_peer set_peer
    verify_or_remember_peer_identity-pinned c w user peer stored = elim (way c w) [
      | hash_failed text is ↦ rw is stored
      | stranger number unknown is ↦ rw is (
          insert_other peer_user user new_peer c.trusted_peer_identities (different unknown stored)
          ∙ stored)
      | acquaintance number known_peer known is ↦ rw is stored
    ]
      where
        different :
            c.trusted_peer_identities peer_user ≡ none
            → c.trusted_peer_identities user ≡ some peer
            → bytes_eq peer_user user ≡ false
        different unknown stored = elim (Bool-cases (bytes_eq peer_user user)) [
          | inl same ↦
              absurd (cc (ap c.trusted_peer_identities (bytes_eq_sound peer_user user same)))
          | inr other ↦ other
        ]
