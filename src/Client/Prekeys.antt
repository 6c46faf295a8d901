-- ===== src/Client/Prekeys.antt =====
-- One-time prekeys of src/client/client.cpp: GenerateUniqueOneTimePrekeyId, RefillOneTimePrekeyPools,
-- BuildPrekeyBundle, SignTransportAuth, PublishPrekeys.
use pqchat.Client.Act.{Act, call, current, prefix_act, pure, update, ◌>>=◌, ◌>>◌}
use pqchat.Client.Host.{Host}
use pqchat.Client.LocalState.Save.{save}
use pqchat.Client.State.{Client, OneTimeEc, OneTimePq, one_time_prekey_pool_target}
use pqchat.Crypto.Evp.{KeyPair}
use pqchat.Crypto.Keys.{ed25519_sign, mldsa65_sign, mlkem_generate, x25519_generate}
use pqchat.Prelude.{
  Bool, Bytes, List, [], false, get_or, length, none, some, suc, true, zero, ℕ, ◌++◌, ◌-◌, ◌==◌,
  ◌||◌, ◌∷◌,
}
use pqchat.Protocol.PrekeyBundle.{OneTimePrekeyEc, OneTimePrekeyPq, PrekeyBundle}
use pqchat.Protocol.Serialization.Reader.{load_u32}
use pqchat.Protocol.SignInputs.{build_bundle_sign_input, cipher_suite, protocol_version}
use pqchat.Result.{Result, err, ok}

abbrev pub has_ec_id : ℕ → List OneTimeEc → Bool
has_ec_id candidate [] = false
has_ec_id candidate (key ∷ keys) = (key.public_part.id == candidate) || has_ec_id candidate keys

abbrev pub has_pq_id : ℕ → List OneTimePq → Bool
has_pq_id candidate [] = false
has_pq_id candidate (key ∷ keys) = (key.public_part.id == candidate) || has_pq_id candidate keys

unfoldable pub id_in_use : ℕ → Client → Bool
id_in_use candidate client =
    has_ec_id candidate client.one_time_ec_pool || has_pq_id candidate client.one_time_pq_pool

abbrev pub candidate_of : Bytes → ℕ
candidate_of random =
    load_u32 (get_or random 0 0) (get_or random 1 0) (get_or random 2 0) (get_or random 3 0)

unfoldable pub add_ec_key : ℕ → KeyPair → Client → Client
add_ec_key key_id pair client = record client {
  one_time_ec_pool =
      client.one_time_ec_pool
      ++ (record {
        public_part = record { id = key_id; public_key = pair.public_key };
        private_part = pair;
      }
          ∷ []);
  prekeys_dirty = true;
}

unfoldable pub add_pq_key : ℕ → KeyPair → Client → Client
add_pq_key key_id pair client = record client {
  one_time_pq_pool =
      client.one_time_pq_pool
      ++ (record {
        public_part = record { id = key_id; public_key = pair.public_key };
        private_part = pair;
      }
          ∷ []);
  prekeys_dirty = true;
}

-- `public_part` of each key of a pool
abbrev ec_publics : List OneTimeEc → List OneTimePrekeyEc
ec_publics [] = []
ec_publics (key ∷ keys) = key.public_part ∷ ec_publics keys

abbrev pq_publics : List OneTimePq → List OneTimePrekeyPq
pq_publics [] = []
pq_publics (key ∷ keys) = key.public_part ∷ pq_publics keys

-- A signature that failed is left empty.
abbrev or_empty : Result Bytes → Bytes
or_empty (ok signature) = signature
or_empty (err text) = []

unfoldable pub unsigned_bundle : Client → PrekeyBundle
unsigned_bundle client = record {
  user_id = client.user_id;
  identity_sign_public_key = client.identity_sign_key.public_key;
  identity_mldsa_public_key = client.identity_mldsa_key.public_key;
  identity_dh_public_key = client.identity_dh_key.public_key;
  signed_prekey_ec = client.signed_prekey_ec_public;
  signed_prekey_pq = client.signed_prekey_pq_public;
  one_time_ec = ec_publics client.one_time_ec_pool;
  one_time_pq = pq_publics client.one_time_pq_pool;
  bundle_signature_ed25519 = [];
  bundle_signature_mldsa65 = [];
  version = protocol_version;
  cipher_suite = cipher_suite;
}

module _ {W : Type 0} (host : Host W) where
  -- The loop of at most 32 attempts, by the attempts left.
  unfoldable pub draw_id : ℕ → Client → W → Result ℕ × W
  draw_id zero client w = (err "failed to generate unique one-time prekey id", w)
  draw_id (suc attempts) client w =
      let (random, w') = host.evp.rand_bytes 4 w in
      elim random [
        | none ↦ (err "RAND_bytes failed", w')
        | some drawn ↦
            let candidate = candidate_of drawn in
            elim ((candidate == 0) || id_in_use candidate client) [
              | true ↦ draw_id attempts client w'
              | false ↦ (ok candidate, w')
            ]
      ]

  unfoldable pub generate_unique_one_time_prekey_id : Act W ℕ
  generate_unique_one_time_prekey_id client w = call (draw_id 32 client) client w

  -- The two loops, by the keys that are missing.
  unfoldable pub refill_ec : ℕ → Act W (Unit {0})
  refill_ec zero = pure tt
  refill_ec (suc missing) = do
    pair ← prefix_act "one-time EC keygen failed: " (call (x25519_generate host.openssl host.evp))
    key_id ← generate_unique_one_time_prekey_id
    update (add_ec_key key_id pair)
    refill_ec missing

  unfoldable pub refill_pq : ℕ → Act W (Unit {0})
  refill_pq zero = pure tt
  refill_pq (suc missing) = do
    pair ← prefix_act "one-time PQ keygen failed: " (call (mlkem_generate host.openssl host.evp))
    key_id ← generate_unique_one_time_prekey_id
    update (add_pq_key key_id pair)
    refill_pq missing

  unfoldable pub refill_one_time_prekey_pools : Act W (Unit {0})
  refill_one_time_prekey_pools = do
    client ← current
    refill_ec (one_time_prekey_pool_target - length client.one_time_ec_pool)
    refill_pq (one_time_prekey_pool_target - length client.one_time_pq_pool)

  unfoldable pub build_prekey_bundle : Client → W → PrekeyBundle × W
  build_prekey_bundle client w =
      let bundle = unsigned_bundle client in
      let input = build_bundle_sign_input bundle in
      let (signed, w') =
        mldsa65_sign host.openssl host.evp client.identity_mldsa_key.private_key input w in
      (
        record bundle {
          bundle_signature_ed25519 =
              or_empty
                (ed25519_sign host.openssl host.evp client.identity_sign_key.private_key input);
          bundle_signature_mldsa65 = or_empty signed;
        },
        w',
      )

  unfoldable pub sign_transport_auth : Bytes → Client → W → Result Bytes × W
  sign_transport_auth message client w =
      mldsa65_sign host.openssl host.evp client.identity_mldsa_key.private_key message w

  abbrev publish_built : Client → W → Result (Unit {0}) × W
  publish_built client w =
      let (bundle, w') = build_prekey_bundle client w in host.server.publish_bundle bundle w'

  unfoldable pub publish_prekeys : Act W (Unit {0})
  publish_prekeys = do
    client ← current
    call (publish_built client)
    update (λ c. record c { prekeys_dirty = false })
    prefix_act "persist local state failed: " (save host)
