-- ===== src/Client/Create.antt =====
-- Create of src/client/client.cpp: the stored client, or a new one.
use text.Mathlib.Text.{◌==◌ as same_text}
use pqchat.Client.Act.{Act, call, prefix_act, prefix_error, pure, returned, update, ◌>>=◌, ◌>>◌}
use pqchat.Client.Host.{Host}
use pqchat.Client.LocalState.Files.{default_local_state_path}
use pqchat.Client.LocalState.Restore.{load_local_state}
use pqchat.Client.LocalState.Save.{save}
use pqchat.Client.Prekeys.{refill_one_time_prekey_pools}
use pqchat.Client.State.{Client}
use pqchat.Crypto.Evp.{KeyPair}
use pqchat.Crypto.Keys.{
  ed25519_generate, ed25519_sign, mldsa65_sign, mldsa_generate, mlkem_generate, x25519_generate,
}
use pqchat.Prelude.{Bytes, Option, String, [], concat, empty_map, false, none, true}
use pqchat.Protocol.SignInputs.{build_ec_prekey_sign_input, build_pq_prekey_sign_input}
use pqchat.Result.{Result, err, ok, ◌>>=◌ as and_then}

-- The environment variables of the path: PQCHAT_STATE_DIR, XDG_STATE_HOME, HOME.
pub record StateDirs : Type 0 where
  pub env_dir : Option Bytes
  pub xdg_state_home : Option Bytes
  pub home : Option Bytes

abbrev path_of : StateDirs → Bytes → Bytes
path_of dirs user_id = default_local_state_path dirs.env_dir dirs.xdg_state_home dirs.home user_id

abbrev no_key : KeyPair
no_key = record { private_key = []; public_key = [] }

-- `Client client;` with its user and its path.
unfoldable pub blank_client : Bytes → Bytes → Client
blank_client user_id path = record {
  user_id = user_id;
  local_state_path = path;
  identity_sign_key = no_key;
  identity_mldsa_key = no_key;
  identity_dh_key = no_key;
  signed_prekey_ec_public = record {
    id = 0;
    public_key = [];
    signature_ed25519 = [];
    signature_mldsa65 = [];
  };
  signed_prekey_ec_private = no_key;
  signed_prekey_pq_public = record {
    id = 0;
    public_key = [];
    signature_ed25519 = [];
    signature_mldsa65 = [];
  };
  signed_prekey_pq_private = no_key;
  one_time_ec_pool = [];
  one_time_pq_pool = [];
  prekeys_dirty = false;
  pending_inbox_ack_up_to_id = none;
  trusted_peer_identities = empty_map;
  sessions_by_peer = empty_map;
  guards = record {
    seen_initial_session_ids = empty_map;
    seen_initial_transcript_hashes = empty_map;
    seen_initial_session_order = [];
    seen_initial_transcript_order = [];
  };
}

module _ {W : Type 0} (host : Host W) where
  -- Both signatures on a signed prekey, with the texts of their errors.
  unfoldable pub sign_prekey : KeyPair → KeyPair → Bytes → String → String → Act W (Bytes × Bytes)
  sign_prekey sign mldsa input failed failed_mldsa = do
    signature ←
        returned (prefix_error failed (ed25519_sign host.openssl host.evp sign.private_key input))
    signature_mldsa ←
        prefix_act failed_mldsa (call (mldsa65_sign host.openssl host.evp mldsa.private_key input))
    pure (signature, signature_mldsa)

  -- The keys of a new client.
  unfoldable pub generate_keys : Act W (Unit {0})
  generate_keys = do
    sign ←
        prefix_act "identity Ed25519 keygen failed: "
          (call (ed25519_generate host.openssl host.evp))
    mldsa ←
        prefix_act "identity ML-DSA keygen failed: " (call (mldsa_generate host.openssl host.evp))
    dh ← prefix_act "identity X25519 keygen failed: " (call (x25519_generate host.openssl host.evp))
    ec ←
        prefix_act "signed prekey EC keygen failed: " (call (x25519_generate host.openssl host.evp))
    ec_signed ←
        sign_prekey sign mldsa (build_ec_prekey_sign_input 1 ec.public_key)
          "signed prekey EC signature failed: " "signed prekey EC ML-DSA signature failed: "
    pq ← prefix_act "signed prekey PQ keygen failed: " (call (mlkem_generate host.openssl host.evp))
    pq_signed ←
        sign_prekey sign mldsa (build_pq_prekey_sign_input 1 pq.public_key)
          "signed prekey PQ signature failed: " "signed prekey PQ ML-DSA signature failed: "
    update λ client. record client {
      identity_sign_key = sign;
      identity_mldsa_key = mldsa;
      identity_dh_key = dh;
      signed_prekey_ec_private = ec;
      signed_prekey_ec_public = record {
        id = 1;
        public_key = ec.public_key;
        signature_ed25519 = ec_signed.0;
        signature_mldsa65 = ec_signed.1;
      };
      signed_prekey_pq_private = pq;
      signed_prekey_pq_public = record {
        id = 1;
        public_key = pq.public_key;
        signature_ed25519 = pq_signed.0;
        signature_mldsa65 = pq_signed.1;
      };
    }

  -- The pools are filled and the state is stored.
  unfoldable pub refill_and_save : String → Act W (Unit {0})
  refill_and_save refill_failed = do
    prefix_act refill_failed (refill_one_time_prekey_pools host)
    prefix_act "state persist failed: " (save host)

  unfoldable pub create_new : Act W (Unit {0})
  create_new = do generate_keys; refill_and_save "one-time prekey pool init failed: "

  -- The client that an action leaves, where it succeeds.
  abbrev built : Act W (Unit {0}) → Client → W → Result Client × W
  built m client w = let (r, s) = m client w in (and_then r λ _. ok s.0, s.1)

  unfoldable pub create : StateDirs → Bytes → W → Result Client × W
  create dirs user_id w =
      let path = path_of dirs user_id in
      elim (load_local_state host user_id path w) [
        | ok client ↦ built (refill_and_save "state load prekey refill failed: ") client w
        | err text ↦ elim (same_text text "state file missing") [
          | true ↦ built create_new (blank_client user_id path) w
          | false ↦ (err (concat "failed loading local state: " text), w)
        ]
      ]
