-- ===== src/Client/SyncLaws.antt =====
-- Two sessions of src/client/client.cpp that belong together, and a message from one to the other.
use pqchat.Client.Act.{prefix_error, prefixed-ok}
use pqchat.Client.Chat.{
  Outgoing, move_recv_ratchet, move_send_ratchet, next_ratchet, ratchet_to_receive,
  received_ratchet, same_ratchet,
}
use pqchat.Client.Handshake.{shared}
use pqchat.Client.Host.{Host}
use pqchat.Client.KeySchedule.{RatchetKeys, derive_ratchet_root_and_chain}
use pqchat.Client.State.{SessionState}
use pqchat.Crypto.Evp.{KeyPair}
use pqchat.Crypto.Keys.{x25519_generate, x25519_shared_secret}
use pqchat.Prelude.{Bytes, ap, bytes_eq, false, refl, subst, sym, true, ◌∙◌, ◌≡◌}
use pqchat.Result.{>>=-eq-ok, Result, err, ok, ok-injective, ◌>>=◌ as and_then}

-- X25519 of OpenSSL: which keys belong together, that a new pair does, that such keys are taken, and that
-- both sides derive one secret.
pub record IsX25519 {W : Type 0} (host : Host W) : Type 1 where
  pub Pair : KeyPair → Type 0
  pub generated :
      (w : W) (pair : KeyPair) (after : W)
      → x25519_generate host.openssl host.evp w ≡ (ok pair, after)
      → Pair pair
  pub taken :
      (pair : KeyPair)
      → Pair pair
      → (host.evp.x25519_private_key pair.private_key ≡ true)
        × (host.evp.x25519_public_key pair.public_key ≡ true)
        × (host.evp.derive_set_peer pair.public_key ≡ true)
  pub agreed :
      (p q : KeyPair)
      → Pair p
      → Pair q
      → host.evp.derive p.private_key q.public_key ≡ host.evp.derive q.private_key p.public_key

module _ {W : Type 0} {host : Host W} (dh : IsX25519 host) where
  pub shared_secret_agreed :
      (p q : KeyPair)
      → dh.Pair p
      → dh.Pair q
      → x25519_shared_secret host.openssl host.evp p.private_key q.public_key
        ≡ x25519_shared_secret host.openssl host.evp q.private_key p.public_key
  unfolding x25519_shared_secret
  shared_secret_agreed p q hp hq =
      let (p_private, p_public, p_peer) = dh.taken p hp in
      let (q_private, q_public, q_peer) = dh.taken q hq in
      rw (p_private, p_public, p_peer, q_private, q_public, q_peer, dh.agreed p q hp hq) refl

  -- What `a` sends with, `b` receives with, and the other way round.
  pub record InSync (a b : SessionState) : Type 0 where
    pub same_id : a.session_id ≡ b.session_id
    pub root : a.root_key ≡ b.root_key
    pub forth : a.send_chain_key ≡ b.recv_chain_key
    pub back : a.recv_chain_key ≡ b.send_chain_key
    pub forth_count : a.send_counter ≡ b.recv_counter
    pub back_count : a.recv_counter ≡ b.send_counter
    pub remote_a : a.remote_ratchet_public ≡ b.local_ratchet_key.public_key
    pub remote_b : b.remote_ratchet_public ≡ a.local_ratchet_key.public_key
    pub pair_a : dh.Pair a.local_ratchet_key
    pub pair_b : dh.Pair b.local_ratchet_key

  InSync-sym : (a b : SessionState) → InSync a b → InSync b a
  InSync-sym a b i = record {
    same_id = sym i.same_id;
    root = sym i.root;
    forth = sym i.back;
    back = sym i.forth;
    forth_count = sym i.back_count;
    back_count = sym i.forth_count;
    remote_a = i.remote_b;
    remote_b = i.remote_a;
    pair_a = i.pair_b;
    pair_b = i.pair_a;
  }

  -- The ratchet of the receiver follows the one of the sender.
  pub record Followed (a b : SessionState) (out : Outgoing) : Type 0 where
    pub moved : SessionState
    pub follows : ratchet_to_receive host out.header.sender_ratchet_public_key b ≡ ok moved
    pub sync : InSync out.session moved
    pub number : out.header.message_number ≡ out.session.send_counter

  pub Followed-same : (a b : SessionState) → InSync a b → Followed a b (same_ratchet a)
  unfolding same_ratchet ratchet_to_receive
  Followed-same a b i = record { moved = b; follows = refl; sync = i; number = refl }

  module _ (a b : SessionState) (i : InSync a b) (pair : KeyPair) (drawn : dh.Pair pair)
      (fresh : bytes_eq pair.public_key b.remote_ratchet_public ≡ false) (secret : Bytes)
      (mixed : RatchetKeys)
      (derived : x25519_shared_secret host.openssl host.evp pair.private_key a.remote_ratchet_public
        ≡ ok secret)
      (root_mixed : derive_ratchet_root_and_chain host secret a.root_key ≡ ok mixed) where
    other_side :
        x25519_shared_secret host.openssl host.evp b.local_ratchet_key.private_key pair.public_key
        ≡ ok secret
    other_side =
        shared_secret_agreed b.local_ratchet_key pair i.pair_b drawn ∙ rw (← i.remote_a) derived

    Followed-moved : Followed a b (next_ratchet pair mixed a)
    unfolding next_ratchet ratchet_to_receive move_recv_ratchet received_ratchet
    Followed-moved = record {
      moved = received_ratchet pair.public_key mixed b;
      follows = rw (fresh, other_side, ← i.root, root_mixed) refl;
      sync = record {
        same_id = i.same_id;
        root = refl;
        forth = refl;
        back = i.back;
        forth_count = refl;
        back_count = i.back_count;
        remote_a = i.remote_a;
        remote_b = refl;
        pair_a = drawn;
        pair_b = i.pair_b;
      };
      number = refl;
    }

  -- Both ends draw keys that they have not used before.
  abbrev pub FreshKey : W → SessionState → Type 0
  FreshKey w b =
      (pair : KeyPair) (after : W)
      → x25519_generate host.openssl host.evp w ≡ (ok pair, after)
      → bytes_eq pair.public_key b.remote_ratchet_public ≡ false

  pub Followed-next :
      (a b : SessionState) (w between : W) (out : Outgoing)
      → InSync a b
      → FreshKey w b
      → move_send_ratchet host a w ≡ (ok out, between)
      → Followed a b out
  unfolding move_send_ratchet ratchet_to_receive move_recv_ratchet
  Followed-next a b w between out i fresh e = go (x25519_generate host.openssl host.evp w) refl e
    where
      secret : KeyPair → Result Bytes
      secret pair =
          x25519_shared_secret host.openssl host.evp pair.private_key a.remote_ratchet_public

      rest : KeyPair → Result Outgoing
      rest pair = and_then (prefix_error "ratchet DH failed: " (secret pair)) λ shared.
          and_then
            (prefix_error "ratchet KDF failed: "
              (derive_ratchet_root_and_chain host shared a.root_key))
            λ mixed. ok (next_ratchet pair mixed a)

      go :
          (o : Result KeyPair × W)
          → x25519_generate host.openssl host.evp w ≡ o
          → ◌≡◌ {A = Result Outgoing × W}
              (and_then (prefix_error "ratchet keygen failed: " o.0) rest, o.1)
              (ok out, between)
          → Followed a b out
      go (err text, after) drawn e = cc
      go (ok pair, after) drawn e =
          let (shared, derived, r1) =
            >>=-eq-ok (prefix_error "ratchet DH failed: " (secret pair)) _ (ap (λ o. o.0) e) in
          let (mixed, root_mixed, r2) =
            >>=-eq-ok
              (prefix_error "ratchet KDF failed: "
                (derive_ratchet_root_and_chain host shared a.root_key))
              _ r1 in
          subst (Followed a b) (ok-injective r2) (
            Followed-moved a b i pair (dh.generated w pair after drawn) (fresh pair after drawn)
              shared mixed (prefixed-ok _ _ derived) (prefixed-ok _ _ root_mixed))
