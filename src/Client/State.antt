-- ===== src/Client/State.antt =====
-- What Client of include/pqchat/client/client.h keeps, and its constants. A SecureBuffer and an EVP_PKEY
-- are their bytes; a std::unordered_set is a map to a unit, a std::deque a list that begins at its front.
use pqchat.Crypto.Evp.{KeyPair}
use pqchat.Prelude.{Bool, Bytes, List, Map, Option, ℕ}
use pqchat.Protocol.PrekeyBundle.{OneTimePrekeyEc, OneTimePrekeyPq, SignedPrekeyEc, SignedPrekeyPq}

pub record SessionState : Type 0 where
  pub session_id : Bytes
  pub peer_user : Bytes
  pub is_initiator : Bool
  pub root_key : Bytes
  pub send_chain_key : Bytes
  pub recv_chain_key : Bytes
  pub send_counter : ℕ
  pub recv_counter : ℕ
  pub previous_send_chain_length : ℕ
  pub local_ratchet_key : KeyPair
  pub remote_ratchet_public : Bytes

pub record OneTimeEc : Type 0 where
  pub public_part : OneTimePrekeyEc
  pub private_part : KeyPair

pub record OneTimePq : Type 0 where
  pub public_part : OneTimePrekeyPq
  pub private_part : KeyPair

pub record PeerIdentity : Type 0 where
  pub sign_public_key : Bytes
  pub mldsa_public_key : Bytes
  pub dh_public_key : Bytes
  pub verified : Bool

abbrev pub Set : Type 0
Set = Map (Unit {0})

-- The sets of replay guards with the order of their insertion.
pub record Guards : Type 0 where
  pub seen_initial_session_ids : Set
  pub seen_initial_transcript_hashes : Set
  pub seen_initial_session_order : List Bytes
  pub seen_initial_transcript_order : List Bytes

pub record Client : Type 0 where
  pub user_id : Bytes
  pub local_state_path : Bytes
  pub identity_sign_key : KeyPair
  pub identity_mldsa_key : KeyPair
  pub identity_dh_key : KeyPair
  pub signed_prekey_ec_public : SignedPrekeyEc
  pub signed_prekey_ec_private : KeyPair
  pub signed_prekey_pq_public : SignedPrekeyPq
  pub signed_prekey_pq_private : KeyPair
  pub one_time_ec_pool : List OneTimeEc
  pub one_time_pq_pool : List OneTimePq
  pub prekeys_dirty : Bool
  pub pending_inbox_ack_up_to_id : Option ℕ
  pub trusted_peer_identities : Map PeerIdentity
  pub sessions_by_peer : Map SessionState
  pub guards : Guards

abbrev pub ratchet_interval : ℕ
ratchet_interval = 10

abbrev pub one_time_prekey_pool_target : ℕ
one_time_prekey_pool_target = 16

abbrev pub max_inbox_drain_passes : ℕ
max_inbox_drain_passes = 64

abbrev pub max_initial_replay_guards : ℕ
max_initial_replay_guards = 4096

abbrev pub max_persisted_sessions : ℕ
max_persisted_sessions = 256

abbrev pub max_persisted_peers : ℕ
max_persisted_peers = 1024
