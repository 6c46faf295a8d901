-- ===== src/Client/PrekeyErased.antt =====
-- The one-time prekeys that HandleInitialMessage of src/client/client.cpp uses up, and the pools that stay.
use pqchat.Client.Accept.{Selected, erase_ec, erase_pq, use_prekeys}
use pqchat.Client.PrekeyLaws.{EcUnique, IdsUnique, PqUnique}
use pqchat.Client.Prekeys.{has_ec_id, has_pq_id}
use pqchat.Client.State.{Client, OneTimeEc, OneTimePq}
use pqchat.Prelude.{Bool-cases, inl, inr, ◌==◌, List, [], arith, false, refl, ℕ, ◌∷◌, ◌≡◌}

has_ec_id-erase_ec :
    (k key_id : ℕ) (keys : List OneTimeEc)
    → has_ec_id k keys ≡ false
    → has_ec_id k (erase_ec key_id keys) ≡ false
unfolding erase_ec
has_ec_id-erase_ec k key_id [] h = refl
has_ec_id-erase_ec k key_id (key ∷ keys) h = ground (arith, has_ec_id-erase_ec k key_id keys)

has_pq_id-erase_pq :
    (k key_id : ℕ) (keys : List OneTimePq)
    → has_pq_id k keys ≡ false
    → has_pq_id k (erase_pq key_id keys) ≡ false
unfolding erase_pq
has_pq_id-erase_pq k key_id [] h = refl
has_pq_id-erase_pq k key_id (key ∷ keys) h = ground (arith, has_pq_id-erase_pq k key_id keys)

erase_ec-EcUnique :
    (key_id : ℕ) (keys : List OneTimeEc) → EcUnique keys → EcUnique (erase_ec key_id keys)
unfolding erase_ec
erase_ec-EcUnique key_id [] u = tt
erase_ec-EcUnique key_id (key ∷ keys) u = elim (Bool-cases (key.public_part.id == key_id)) [
  | inl same ↦ rw same (u.1)
  | inr other ↦
      rw other
        (has_ec_id-erase_ec key.public_part.id key_id keys u.0, erase_ec-EcUnique key_id keys u.1)
]

erase_pq-PqUnique :
    (key_id : ℕ) (keys : List OneTimePq) → PqUnique keys → PqUnique (erase_pq key_id keys)
unfolding erase_pq
erase_pq-PqUnique key_id [] u = tt
erase_pq-PqUnique key_id (key ∷ keys) u = elim (Bool-cases (key.public_part.id == key_id)) [
  | inl same ↦ rw same (u.1)
  | inr other ↦
      rw other
        (has_pq_id-erase_pq key.public_part.id key_id keys u.0, erase_pq-PqUnique key_id keys u.1)
]

pub use_prekeys-IdsUnique :
    (selected : Selected) (c : Client) → IdsUnique c → IdsUnique (use_prekeys selected c)
unfolding use_prekeys
use_prekeys-IdsUnique selected c u = record {
  ec = erase_ec-EcUnique selected.one_time_ec_id c.one_time_ec_pool u.ec;
  pq = erase_pq-PqUnique selected.one_time_pq_id c.one_time_pq_pool u.pq;
  apart = λ k. ground (
    arith,
    u.apart k,
    has_ec_id-erase_ec k selected.one_time_ec_id c.one_time_ec_pool,
    has_pq_id-erase_pq k selected.one_time_pq_id c.one_time_pq_pool,
  );
}

-- The same pools.
abbrev pub moved_on :
    {c d : Client}
    → IdsUnique c
    → d.one_time_ec_pool ≡ c.one_time_ec_pool
    → d.one_time_pq_pool ≡ c.one_time_pq_pool
    → IdsUnique d
moved_on {c} {d} u e f = record {
  ec = rw e u.ec;
  pq = rw f u.pq;
  apart = λ k. rw (e, f) (u.apart k);
}
