-- ===== src/Server/InMemory/State.antt =====
-- What InMemoryServer of include/pqchat/server/in_memory_server.h keeps, and the outcome of a call.
-- The calls hold one mutex from the first statement to the last: they follow one another.
use pqchat.Prelude.{Bool, Bytes, List, Map, Option, [], empty_map, false, none, some, true, ℕ, ◌∷◌}
use pqchat.Protocol.Messages.{Envelope}
use pqchat.Protocol.PrekeyBundle.{OneTimePrekeyEc, OneTimePrekeyPq, PrekeyBundle}
use pqchat.Result.{Result}

pub record BundleStore : Type 0 where
  pub base_bundle : PrekeyBundle
  pub one_time_ec_pool : List OneTimePrekeyEc
  pub one_time_pq_pool : List OneTimePrekeyPq

pub record ChallengeState : Type 0 where
  pub user_id : Bytes
  pub client_nonce : Bytes
  pub server_nonce : Bytes
  pub expires_at_unix : ℕ
  pub used : Bool

pub record SessionState : Type 0 where
  pub user_id : Bytes
  pub expires_at_unix : ℕ

pub record InboxEntry : Type 0 where
  pub inbox_id : ℕ
  pub envelope : Envelope

-- A std::deque is a list that begins at its front.
pub record InMemoryServer : Type 0 where
  pub bundles : Map BundleStore
  pub inbox : Map (List InboxEntry)
  pub next_inbox_id_by_user : Map ℕ
  pub transport_identities : Map Bytes
  pub challenges : Map ChallengeState
  pub sessions : Map SessionState
  pub auth_begin_attempts : Map (List ℕ)
  pub auth_finish_attempts : Map (List ℕ)
  pub required_registration_token : Bytes

unfoldable pub new_server : Bytes → InMemoryServer
new_server required_registration_token = record {
  bundles = empty_map;
  inbox = empty_map;
  next_inbox_id_by_user = empty_map;
  transport_identities = empty_map;
  challenges = empty_map;
  sessions = empty_map;
  auth_begin_attempts = empty_map;
  auth_finish_attempts = empty_map;
  required_registration_token = required_registration_token;
}

-- What a call returns, and the state it leaves.
abbrev pub Outcome : Type 0 → Type 0
Outcome A = Result A × InMemoryServer

-- `RandomBytes`: what RAND_bytes filled in, and nothing where it failed.
abbrev pub random_bytes : Option Bytes → Bytes
random_bytes none = []
random_bytes (some drawn) = drawn

abbrev pub empty : {A : Type 0} → List A → Bool
empty [] = true
empty (x ∷ xs) = false

-- `(*map)[key]` of a key that may be missing, with the value that it then gets
abbrev pub value_or : {V : Type 0} → V → Option V → V
value_or d none = d
value_or d (some v) = v
