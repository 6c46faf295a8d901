-- ===== src/Examples/Chatting/Host.antt =====
-- The surroundings of the clients of src/client/client.cpp in the examples: the library, a file system in
-- which all succeeds, and a server that takes each message but the first of a chain.
use pqchat.Client.HandshakeSync.{IsKem}
use pqchat.Client.Host.{Files, Host, wrote}
use pqchat.Client.State.{Client, PeerIdentity, SessionState}
use pqchat.Client.SyncLaws.{IsX25519}
use pqchat.Crypto.Evp.{EncapResult}
use pqchat.Examples.Chatting.Library.{counted_down, one_key, toy_evp, toy_openssl, zeros}
use pqchat.Prelude.{
  if◌then◌else◌, Bool, Bytes, Option, [], ap, ◌==◌, ◌&&◌, codes, empty_map, false, insert, length,
  none, refl, some, some-injective, sym, true, ℕ, ◌∙◌, ◌∷◌,
}
use pqchat.Protocol.Messages.{ChatMessage}
use pqchat.Protocol.PrekeyBundle.{PrekeyBundle}
use pqchat.Protocol.SignInputs.{cipher_suite, protocol_version}
use pqchat.Result.{err, ok}
use pqchat.Server.Api.{ServerApi}

abbrev pub toy_files : Files (Unit {0})
toy_files = record {
  lstat = λ path w. none;
  create_directories = λ dir w. (true, w);
  chmod = λ dir w. (true, w);
  mkstemp = λ template w. (some (codes "/tmp/s"), w);
  fchmod = λ tmp w. (true, w);
  write = λ tmp left w. (wrote (length left), w);
  fsync = λ tmp w. (true, w);
  close = λ tmp w. (true, w);
  unlink = λ tmp w. w;
  rename = λ tmp path w. (true, w);
  open_directory = λ dir w. (true, w);
  readable = λ path w. false;
  file_size = λ path w. none;
  read_bytes = λ path w. [];
}

abbrev pub bob_bundle : PrekeyBundle
bob_bundle = record {
  user_id = codes "bo";
  identity_sign_public_key = 1 ∷ [];
  identity_mldsa_public_key = 2 ∷ [];
  identity_dh_public_key = 3 ∷ [];
  signed_prekey_ec = record {
    id = 1;
    public_key = 4 ∷ [];
    signature_ed25519 = [];
    signature_mldsa65 = [];
  };
  signed_prekey_pq = record {
    id = 1;
    public_key = 5 ∷ [];
    signature_ed25519 = [];
    signature_mldsa65 = [];
  };
  one_time_ec = record { id = 7; public_key = 6 ∷ [] } ∷ [];
  one_time_pq = record { id = 8; public_key = 7 ∷ [] } ∷ [];
  bundle_signature_ed25519 = [];
  bundle_signature_mldsa65 = [];
  version = protocol_version;
  cipher_suite = cipher_suite;
}

-- The first message of the first chain is refused.
abbrev pub is_first : Option ChatMessage → Bool
is_first none = false
is_first (some message) = (message.header.message_number == 0) && (message.header.flags == 0)

abbrev pub toy_server : ServerApi (Unit {0})
toy_server = record {
  register_transport_identity = λ request w. (ok tt, w);
  begin_transport_authentication = λ request w. (err "none", w);
  finish_transport_authentication = λ request w. (err "none", w);
  authenticate_session_token = λ token w. (err "none", w);
  revoke_session_token = λ token w. (ok tt, w);
  publish_bundle = λ bundle w. (ok tt, w);
  acquire_bundle_for_session = λ user w. (ok bob_bundle, w);
  enqueue_envelope =
      λ user envelope w. (if is_first envelope.chat then err "refused" else ok tt, w);
  drain_inbox = λ user ack w. (ok [], w);
}

abbrev pub toy_host : Host (Unit {0})
toy_host = record {
  openssl = toy_openssl;
  evp = toy_evp;
  server = toy_server;
  files = toy_files;
  pbkdf2 = λ passphrase salt. some (zeros 32);
  passphrase = λ w. some (codes "secret");
  peer_entries = λ peers. [];
  session_entries = λ sessions. [];
  write_rounds = 1;
}

abbrev pub known_peer : PeerIdentity
known_peer = record {
  sign_public_key = 1 ∷ [];
  mldsa_public_key = 2 ∷ [];
  dh_public_key = 3 ∷ [];
  verified = true;
}

-- A client that knows the other.
abbrev pub toy_client : Bytes → Bytes → Client
toy_client user peer = record {
  user_id = user;
  local_state_path = codes "/s/x.bin";
  identity_sign_key = one_key 1;
  identity_mldsa_key = one_key 2;
  identity_dh_key = one_key 3;
  signed_prekey_ec_public = bob_bundle.signed_prekey_ec;
  signed_prekey_ec_private = one_key 4;
  signed_prekey_pq_public = bob_bundle.signed_prekey_pq;
  signed_prekey_pq_private = one_key 5;
  one_time_ec_pool =
      record { public_part = record { id = 7; public_key = 6 ∷ [] }; private_part = one_key 6 }
      ∷ [];
  one_time_pq_pool =
      record { public_part = record { id = 8; public_key = 7 ∷ [] }; private_part = one_key 7 }
      ∷ [];
  prekeys_dirty = false;
  pending_inbox_ack_up_to_id = none;
  trusted_peer_identities = insert peer known_peer empty_map;
  sessions_by_peer = empty_map;
  guards = record {
    seen_initial_session_ids = empty_map;
    seen_initial_transcript_hashes = empty_map;
    seen_initial_session_order = [];
    seen_initial_transcript_order = [];
  };
}

-- A session with itself: what it sends with, it receives with.
abbrev pub session_at : ℕ → SessionState
session_at n = record {
  session_id = counted_down 16;
  peer_user = codes "bo";
  is_initiator = true;
  root_key = 1 ∷ [];
  send_chain_key = 2 ∷ [];
  recv_chain_key = 2 ∷ [];
  send_counter = n;
  recv_counter = n;
  previous_send_chain_length = 0;
  local_ratchet_key = one_key 4;
  remote_ratchet_public = 4 ∷ [];
}

abbrev pub with_session : Bytes → ℕ → Client → Client
with_session peer n client = record client {
  sessions_by_peer = insert peer (session_at n) client.sessions_by_peer;
}

abbrev pub alice : Client
alice = toy_client (codes "al") (codes "bo")

abbrev pub bob : Client
bob = toy_client (codes "bo") (codes "al")

abbrev pub toy_dh : IsX25519 toy_host
toy_dh = record {
  Pair = λ pair. Unit;
  generated = λ w pair after e. tt;
  taken = λ pair h. (refl, refl, refl);
  agreed = λ p q hp hq. refl;
}

abbrev pub toy_kem : IsKem toy_host
toy_kem = record {
  Pair = λ pair. Unit;
  found_again = λ pair w after made h e.
      let same = some-injective (ap (λ o. o.0) e) in
      ap (λ (x : EncapResult). some x.ciphertext) (sym same)
      ∙ ap (λ (x : EncapResult). some x.shared_secret) same;
}
