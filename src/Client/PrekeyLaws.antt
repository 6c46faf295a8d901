-- ===== src/Client/PrekeyLaws.antt =====
-- The ids of the one-time prekeys of src/client/client.cpp: no two keys of a client share one.
use pqchat.Client.Act.{
  Act, Keeps, Keeps-bind, Keeps-bind_with, Keeps-call, Keeps-current, Keeps-prefix, Keeps-returned,
  update, ◌>>=◌, ◌>>◌,
}
use pqchat.Client.Host.{Host}
use pqchat.Client.Prekeys.{
  add_ec_key, add_pq_key, candidate_of, draw_id, generate_unique_one_time_prekey_id, has_ec_id,
  has_pq_id, id_in_use, refill_ec, refill_one_time_prekey_pools, refill_pq,
}
use pqchat.Client.State.{Client, OneTimeEc, OneTimePq, one_time_prekey_pool_target}
use pqchat.Crypto.Evp.{KeyPair}
use pqchat.Prelude.{
  ==_iff, Bool-cases, List, Option-cases, [], ap, arith, false, inl, inr, length, refl, subst, suc,
  sym, true, zero, ℕ, ◌&&◌, ◌++◌, ◌-◌, ◌==◌, ◌||◌, ◌∙◌, ◌∷◌, ◌≡◌, ◌⊎◌,
}
use pqchat.Result.{err, ok, ok-injective}

abbrev pub EcUnique : List OneTimeEc → Type 0
EcUnique [] = Unit
EcUnique (key ∷ keys) = (has_ec_id key.public_part.id keys ≡ false) × EcUnique keys

abbrev pub PqUnique : List OneTimePq → Type 0
PqUnique [] = Unit
PqUnique (key ∷ keys) = (has_pq_id key.public_part.id keys ≡ false) × PqUnique keys

-- No id twice in a pool, and none in both.
pub record IdsUnique (c : Client) : Type 0 where
  pub ec : EcUnique c.one_time_ec_pool
  pub pq : PqUnique c.one_time_pq_pool
  pub apart :
      (key_id : ℕ)
      → has_ec_id key_id c.one_time_ec_pool && has_pq_id key_id c.one_time_pq_pool ≡ false

has_ec_id-append :
    (key_id : ℕ) (keys : List OneTimeEc) (key : OneTimeEc)
    → has_ec_id key_id (keys ++ (key ∷ [])) ≡ has_ec_id key_id keys || key.public_part.id == key_id
has_ec_id-append key_id [] key = ground arith
has_ec_id-append key_id (k ∷ keys) key = ground (arith, has_ec_id-append key_id keys key)

has_pq_id-append :
    (key_id : ℕ) (keys : List OneTimePq) (key : OneTimePq)
    → has_pq_id key_id (keys ++ (key ∷ [])) ≡ has_pq_id key_id keys || key.public_part.id == key_id
has_pq_id-append key_id [] key = ground arith
has_pq_id-append key_id (k ∷ keys) key = ground (arith, has_pq_id-append key_id keys key)

EcUnique-append :
    (keys : List OneTimeEc) (key : OneTimeEc)
    → EcUnique keys
    → has_ec_id key.public_part.id keys ≡ false
    → EcUnique (keys ++ (key ∷ []))
EcUnique-append [] key u h = (refl, tt)
EcUnique-append (k ∷ keys) key u h = (
  rw (has_ec_id-append k.public_part.id keys key) (ground arith),
  EcUnique-append keys key u.1 (ground arith),
)

PqUnique-append :
    (keys : List OneTimePq) (key : OneTimePq)
    → PqUnique keys
    → has_pq_id key.public_part.id keys ≡ false
    → PqUnique (keys ++ (key ∷ []))
PqUnique-append [] key u h = (refl, tt)
PqUnique-append (k ∷ keys) key u h = (
  rw (has_pq_id-append k.public_part.id keys key) (ground arith),
  PqUnique-append keys key u.1 (ground arith),
)

add_ec_key-IdsUnique :
    (key_id : ℕ) (pair : KeyPair) (c : Client)
    → id_in_use key_id c ≡ false
    → IdsUnique c
    → IdsUnique (add_ec_key key_id pair c)
unfolding add_ec_key id_in_use
add_ec_key-IdsUnique key_id pair c new u = record {
  ec = EcUnique-append c.one_time_ec_pool _ u.ec (ground arith);
  pq = u.pq;
  apart = λ k.
      rw (has_ec_id-append k c.one_time_ec_pool _) (go k (Bool-cases (key_id == k)) (u.apart k));
}
  where
    go :
        (k : ℕ)
        → ((key_id == k) ≡ true) ⊎ ((key_id == k) ≡ false)
        → has_ec_id k c.one_time_ec_pool && has_pq_id k c.one_time_pq_pool ≡ false
        → (has_ec_id k c.one_time_ec_pool || key_id == k) && has_pq_id k c.one_time_pq_pool ≡ false
    go k (inl same) h = rw (← (==_iff key_id k).0 same) (ground arith)
    go k (inr other) h = ground arith

add_pq_key-IdsUnique :
    (key_id : ℕ) (pair : KeyPair) (c : Client)
    → id_in_use key_id c ≡ false
    → IdsUnique c
    → IdsUnique (add_pq_key key_id pair c)
unfolding add_pq_key id_in_use
add_pq_key-IdsUnique key_id pair c new u = record {
  ec = u.ec;
  pq = PqUnique-append c.one_time_pq_pool _ u.pq (ground arith);
  apart = λ k.
      rw (has_pq_id-append k c.one_time_pq_pool _) (go k (Bool-cases (key_id == k)) (u.apart k));
}
  where
    go :
        (k : ℕ)
        → ((key_id == k) ≡ true) ⊎ ((key_id == k) ≡ false)
        → has_ec_id k c.one_time_ec_pool && has_pq_id k c.one_time_pq_pool ≡ false
        → has_ec_id k c.one_time_ec_pool && (has_pq_id k c.one_time_pq_pool || key_id == k) ≡ false
    go k (inl same) h = rw (← (==_iff key_id k).0 same) (ground arith)
    go k (inr other) h = ground arith

abbrev pub Unique : {W : Type 0} → Client → W → Type 0
Unique c w = IdsUnique c

module _ {W : Type 0} (host : Host W) where
  -- An id that is drawn is not zero and in no pool.
  draw_id_fresh :
      (attempts : ℕ) (c : Client) (w w' : W) (key_id : ℕ)
      → draw_id host attempts c w ≡ (ok key_id, w')
      → ((key_id == 0) || id_in_use key_id c) ≡ false
  unfolding draw_id
  draw_id_fresh zero c w w' key_id e = cc
  draw_id_fresh (suc attempts) c w w' key_id e =
      let r = host.evp.rand_bytes 4 w in
      elim (Option-cases r.0) [
        | inl nothing ↦
            let failed : draw_id host (suc attempts) c w ≡ (err "RAND_bytes failed", r.1) =
              rw (draw_id, nothing) refl in
            absurd (cc (failed, e))
        | inr (drawn, got) ↦
            elim (Bool-cases ((candidate_of drawn == 0) || id_in_use (candidate_of drawn) c)) [
              | inl taken ↦
                  let again : draw_id host (suc attempts) c w ≡ draw_id host attempts c r.1 =
                    rw (draw_id, got, taken) refl in
                  draw_id_fresh attempts c r.1 w' key_id (sym again ∙ e)
              | inr free ↦
                  let drew : draw_id host (suc attempts) c w ≡ (ok (candidate_of drawn), r.1) =
                    rw (draw_id, got, free) refl in
                  let same : candidate_of drawn ≡ key_id =
                    ok-injective (ap (λ o. o.0) (sym drew ∙ e)) in
                  subst (λ k. ((k == 0) || id_in_use k c) ≡ false) same free
            ]
      ]

  -- A key that is drawn and added keeps the ids unique, and so does a draw that fails.
  module _ (add : ℕ → KeyPair → Client → Client)
      (added : (key_id : ℕ) (pair : KeyPair) (c : Client)
        → id_in_use key_id c ≡ false
        → IdsUnique c
        → IdsUnique (add key_id pair c)) where
    draw_and_add-Keeps :
        (pair : KeyPair) (rest : Act W (Unit {0}))
        → Keeps Unique rest
        → Keeps Unique
            (generate_unique_one_time_prekey_id host >>= λ key_id. update (add key_id pair) >> rest)
    unfolding generate_unique_one_time_prekey_id ◌>>=◌
    draw_and_add-Keeps pair rest k =
        Keeps-bind_with Unique (generate_unique_one_time_prekey_id host)
          (λ key_id. update (add key_id pair) >> rest) (record { keeps = λ c w u. u })
          λ c w key_id s u e q.
            let drew : draw_id host 32 c w ≡ (ok key_id, s.1) = ap (λ o. (o.0, o.1.1)) e in
            let here : s.0 ≡ c = sym (ap (λ o. o.1.0) e) in
            k.keeps (add key_id pair s.0) s.1 (
              added key_id pair s.0 (rw here (ground (arith, draw_id_fresh 32 c w s.1 key_id drew)))
                q)

  refill_ec-Keeps : (missing : ℕ) → Keeps Unique (refill_ec host missing)
  unfolding refill_ec
  refill_ec-Keeps zero = Keeps-returned Unique (ok tt)
  refill_ec-Keeps (suc missing) =
      Keeps-bind Unique (Keeps-prefix Unique _ (Keeps-call Unique _ (λ c w u. u))) λ pair.
        draw_and_add-Keeps add_ec_key add_ec_key-IdsUnique pair (refill_ec host missing)
          (refill_ec-Keeps missing)

  refill_pq-Keeps : (missing : ℕ) → Keeps Unique (refill_pq host missing)
  unfolding refill_pq
  refill_pq-Keeps zero = Keeps-returned Unique (ok tt)
  refill_pq-Keeps (suc missing) =
      Keeps-bind Unique (Keeps-prefix Unique _ (Keeps-call Unique _ (λ c w u. u))) λ pair.
        draw_and_add-Keeps add_pq_key add_pq_key-IdsUnique pair (refill_pq host missing)
          (refill_pq-Keeps missing)

  -- Whatever is drawn, and wherever the refill stops, it leaves no two one-time prekeys with one id if there
  -- were none before.
  pub refill_one_time_prekey_pools-IdsUnique :
      (c : Client) (w : W) → IdsUnique c → IdsUnique (refill_one_time_prekey_pools host c w).1.0
  unfolding refill_one_time_prekey_pools
  refill_one_time_prekey_pools-IdsUnique c w u =
      (Keeps-bind Unique (Keeps-current Unique) (λ client.
          Keeps-bind Unique
            (refill_ec-Keeps (one_time_prekey_pool_target - length client.one_time_ec_pool))
            (λ _.
              refill_pq-Keeps
                (one_time_prekey_pool_target - length client.one_time_pq_pool)))).keeps
        c w u
