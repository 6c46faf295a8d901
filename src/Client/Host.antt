-- ===== src/Client/Host.antt =====
-- What src/client/client.cpp calls and this repository does not define: OpenSSL, the file system, the
-- environment, the order in which a container lists its entries; and the server behind IServerApi.
use pqchat.Client.State.{PeerIdentity, SessionState}
use pqchat.Crypto.{OpenSsl}
use pqchat.Crypto.Evp.{Evp}
use pqchat.Prelude.{Bool, Bytes, List, Map, Option, ℕ}
use pqchat.Server.Api.{ServerApi}

pub data FileKind : Type 0 where
  symlink directory other_file : FileKind

-- `write` returned a count, or -1 with errno EINTR or another.
pub data WriteAnswer : Type 0 where
  wrote : ℕ → WriteAnswer
  interrupted : WriteAnswer
  write_failed : WriteAnswer

-- A file that is open stands for its path.
pub record Files (W : Type 0) : Type 0 where
  pub lstat : Bytes → W → Option FileKind
  pub create_directories : Bytes → W → Bool × W
  pub chmod : Bytes → W → Bool × W
  pub mkstemp : Bytes → W → Option Bytes × W
  pub fchmod : Bytes → W → Bool × W
  pub write : Bytes → Bytes → W → WriteAnswer × W
  pub fsync : Bytes → W → Bool × W
  pub close : Bytes → W → Bool × W
  pub unlink : Bytes → W → W
  pub rename : Bytes → Bytes → W → Bool × W
  pub open_directory : Bytes → W → Bool × W
  -- std::ifstream: whether it is good, tellg() at the end (none is negative), the bytes that are read
  pub readable : Bytes → W → Bool
  pub file_size : Bytes → W → Option ℕ
  pub read_bytes : Bytes → W → Bytes

pub record Host (W : Type 0) : Type 0 where
  pub openssl : OpenSsl
  pub evp : Evp W
  pub server : ServerApi W
  pub files : Files W
  -- PKCS5_PBKDF2_HMAC with 210000 rounds and 32 bytes: passphrase, salt
  pub pbkdf2 : Bytes → Bytes → Option Bytes
  -- getenv("PQCHAT_STATE_PASSPHRASE")
  pub passphrase : W → Option Bytes
  -- The range of a std::unordered_map
  pub peer_entries : Map PeerIdentity → List (Bytes × PeerIdentity)
  pub session_entries : Map SessionState → List (Bytes × SessionState)
  -- How often the loop of WriteAllFileAtomic is followed.
  pub write_rounds : ℕ
