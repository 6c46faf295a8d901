-- ===== src/Client/LocalState/Load.antt =====
-- LoadLocalState of src/client/client.cpp. It fills a client of which only the user and the path are set;
-- Create, its one caller, drops what a failed load has filled in.
use pqchat.Client.LocalState.Sealed.{decoded, read_state_bytes}
use pqchat.Client.State.{OneTimeEc, PeerIdentity, SessionState, Set, one_time_prekey_pool_target}
use pqchat.Crypto.Evp.{KeyPair}
use pqchat.Prelude.{Bytes, List, Map, String, [], insert, not, suc, zero, ℕ, ◌*◌, ◌==◌, ◌∷◌}
use pqchat.Protocol.PrekeyBundle.{OneTimePrekeyPq, SignedPrekeyEc, SignedPrekeyPq}
use pqchat.Protocol.Serialization.Reader.{
  Read, Reader, limit_u32, pure as give, read_u32, read_u64, read_u8, ◌>>=◌ as and_read,
}
use pqchat.Result.{Result, ok, ◌>>=◌ as and_then}

abbrev pub Load : Type 0 → Type 0
Load A = Reader → Result (A × Reader)

-- `if (!reader.X(…) || …) return Err(prefix + reader.error())`
abbrev pub section : {A : Type 0} → String → Read A → Load A
section prefix read reader = decoded prefix (read reader)

module _ {A B : Type 0} where
  infixl 5 ◌>>=◌
  abbrev pub ◌>>=◌ : Load A → (A → Load B) → Load B
  ◌>>=◌ m f reader = and_then (m reader) λ (out : A × Reader). f out.0 out.1

module _ {A : Type 0} where
  infixl 5 ◌>>◌
  abbrev pub ◌>>◌ : Load (Unit {0}) → Load A → Load A
  ◌>>◌ m n = m >>= λ _. n

  abbrev pub loaded : A → Load A
  loaded a reader = ok (a, reader)

  abbrev pub checked : Result A → Load A
  checked r reader = and_then r λ a. ok (a, reader)

-- `for (uint32_t i = 0; i < count; ++i)`
unfoldable pub load_items : {A : Type 0} → ℕ → Load A → Load (List A)
load_items zero load = loaded []
load_items (suc count) load = do item ← load; items ← load_items count load; loaded (item ∷ items)

-- A pair of keys: the private one first.
abbrev pub read_pair : Read KeyPair
read_pair = and_read read_state_bytes λ priv.
    and_read read_state_bytes λ pub_key. give (record { private_key = priv; public_key = pub_key })

-- The count of a list, within its limit.
abbrev pub read_limited_count : ℕ → String → Read ℕ
read_limited_count max label =
    and_read read_u32 λ count. and_read (limit_u32 count max label) λ _. give count

abbrev pub max_one_time_keys : ℕ
max_one_time_keys = one_time_prekey_pool_target * 64

-- A signed prekey and its private key.
abbrev pub read_signed_ec : Read (SignedPrekeyEc × KeyPair)
read_signed_ec = and_read read_u32 λ key_id. and_read read_state_bytes λ public_key.
    and_read read_state_bytes λ signature. and_read read_state_bytes λ signature_mldsa.
      and_read read_state_bytes λ priv. give (
        record {
          id = key_id;
          public_key = public_key;
          signature_ed25519 = signature;
          signature_mldsa65 = signature_mldsa;
        },
        record { private_key = priv; public_key = public_key },
      )

abbrev pub read_signed_pq : Read (SignedPrekeyPq × Bytes)
read_signed_pq = and_read read_u32 λ key_id. and_read read_state_bytes λ public_key.
    and_read read_state_bytes λ signature. and_read read_state_bytes λ signature_mldsa.
      and_read read_state_bytes λ priv. give (
        record {
          id = key_id;
          public_key = public_key;
          signature_ed25519 = signature;
          signature_mldsa65 = signature_mldsa;
        },
        priv,
      )

unfoldable pub read_one_time_ec_key : Read OneTimeEc
read_one_time_ec_key = and_read read_u32 λ key_id. and_read read_state_bytes λ public_key.
    and_read read_state_bytes λ priv. give (record {
      public_part = record { id = key_id; public_key = public_key };
      private_part = record { private_key = priv; public_key = public_key };
    })

-- The public part, and the private key that is still to be restored.
unfoldable pub read_one_time_pq_key : Read (OneTimePrekeyPq × Bytes)
read_one_time_pq_key = and_read read_u32 λ key_id. and_read read_state_bytes λ public_key.
    and_read read_state_bytes λ priv. give (record { id = key_id; public_key = public_key }, priv)

unfoldable pub read_peer : Read (Bytes × PeerIdentity)
read_peer = and_read read_state_bytes λ peer_user. and_read read_state_bytes λ sign.
    and_read read_state_bytes λ mldsa. and_read read_state_bytes λ dh. and_read read_u8 λ verified.
      give (
        peer_user,
        record {
          sign_public_key = sign;
          mldsa_public_key = mldsa;
          dh_public_key = dh;
          verified = not (verified == 0);
        },
      )

unfoldable pub read_session : Read (Bytes × SessionState)
read_session = and_read read_state_bytes λ peer_key. and_read read_state_bytes λ session_id.
    and_read read_state_bytes λ peer_user. and_read read_u8 λ is_initiator.
      and_read read_state_bytes λ root_key. and_read read_state_bytes λ send_chain_key.
        and_read read_state_bytes λ recv_chain_key. and_read read_u64 λ send_counter.
          and_read read_u64 λ recv_counter. and_read read_u64 λ previous.
            and_read read_pair λ local_ratchet_key.
              and_read read_state_bytes λ remote_ratchet_public. give (
                peer_key,
                record {
                  session_id = session_id;
                  peer_user = peer_user;
                  is_initiator = not (is_initiator == 0);
                  root_key = root_key;
                  send_chain_key = send_chain_key;
                  recv_chain_key = recv_chain_key;
                  send_counter = send_counter;
                  recv_counter = recv_counter;
                  previous_send_chain_length = previous;
                  local_ratchet_key = local_ratchet_key;
                  remote_ratchet_public = remote_ratchet_public;
                },
              )

-- `map[key] = value` for each entry in turn
unfoldable pub insert_each : {V : Type 0} → List (Bytes × V) → Map V → Map V
insert_each [] m = m
insert_each (entry ∷ entries) m = insert_each entries (insert entry.0 entry.1 m)

-- `set.insert(key)` for each key in turn
unfoldable pub insert_keys : List Bytes → Set → Set
insert_keys [] set = set
insert_keys (key ∷ keys) set = insert_keys keys (insert key tt set)
