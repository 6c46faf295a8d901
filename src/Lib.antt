-- ===== src/Lib.antt =====
-- pqchat: a chat with post-quantum key agreement. Clients exchange end-to-end encrypted envelopes
-- through a server, which registers users, lets them log in by a signed challenge, keeps their prekey
-- bundles and stores envelopes until their receiver has drained them.
--
-- The parts and their files (paths of the repository on the left):
--   include/pqchat/util/result.h               Result
--   include/pqchat/protocol/messages.h         Protocol/Messages
--   include/pqchat/protocol/prekey_bundle.h    Protocol/PrekeyBundle
--   include/pqchat/protocol/transport_auth.h   Protocol/TransportAuth
--   src/protocol/serialization.cpp             Protocol/Serialization: Writer, Reader, then for each kind
--                                              of message the write and read functions (Messages, Prekeys,
--                                              Requests, InboxFields) and the public functions
--                                              (Envelopes, Payloads, InboxRequests)
--   src/protocol/messages.cpp, src/protocol/prekey_bundle.cpp, src/protocol/transport_auth.cpp
--                                              Protocol/SignInputs
--   src/crypto                                 Crypto (checks of signatures, hash, HMAC), Crypto/Aead,
--                                              Crypto/Keys (key pairs, shared secrets, signing, HKDF)
--   src/server/in_memory_server.cpp            Server/InMemory: State, Hex, RateLimit, Registration, Login,
--                                              Sessions, Bundles, Inbox
--   include/pqchat/server/server_api.h         Server/Api
--   src/server/tcp_server.cpp                  Server/Tcp: PreAuth (the windows by address), Dispatch (the
--                                              commands of a session), Frames (the answer to a frame)
--   include/pqchat/client/client.h             Client/State
--   src/client/client.cpp                      Client: Identity, Prekeys, ReplayGuards, KeySchedule,
--                                              Handshake (InitiateSession), Accept (HandleInitialMessage),
--                                              Chat (SendMessage, HandleChatMessage), Inbox, Create, and
--                                              LocalState (Payload and Save, Sealed, Files, Load, Restore)
-- A function has the source's name in snake_case: `DeserializeEnvelope` is `deserialize_envelope`.
-- The other files hold the laws. A write function is a function on the bytes written so far, a read
-- function one on the reader, which returns a value or nothing and leaves the reader with its error text.
-- Protocol/Serialization/Codec says when the two fit together, and its rules follow the calls of a
-- function; Whole adds what every public function does around them. Protocol/Determined uses the same
-- rules for what is signed and hashed.
--
-- Bytes are numbers, and a theorem about them asks for numbers below 256; 32-bit and 64-bit integers are
-- numbers that the operations reduce. Sizes and positions are size_t, which the limits keep far from its
-- end. A std::string is its bytes. A std::unordered_map is the function from keys to entries; where the
-- client lists one, to save it, the list is a parameter of the model.
--
-- The server's state is the record InMemoryServer, and an operation is a function from its arguments and
-- the state to a Result and the next state. The time and the random bytes are arguments. Each operation
-- holds the mutex to its end, so that a run is a sequence of steps (Server/InMemory/Reachable). Loops are
-- recursions on the list or on the number of rounds that the source's loop counts, without fuel.
--
-- Server/Tcp answers frames over any server behind IServerApi, a record of operations on its state, and
-- the in-memory server is one (Server/Api). Its theorems hold for each.
--
-- The client is the record Client, and each of its functions an action on it and on the surroundings
-- (Client/Act): it returns a Result and leaves a client and surroundings, also where it fails, so that a
-- theorem can say what a failed call has changed. Client/Host is what the client calls: the library, the
-- server behind IServerApi, the file system, PBKDF2, the passphrase of the environment, and the order in
-- which the two maps are listed when they are saved. The loop of WriteAllFileAtomic has a number of rounds
-- as its fuel, which is a field of the host: with as many rounds as there are bytes it comes to its end
-- where each write advances. The tests for a null server have no counterpart.
--
-- OpenSSL is a parameter, the records OpenSsl and Evp of its answers: nothing is assumed of them but where
-- a theorem has a hypothesis for it. These are that X25519 and ML-KEM agree (IsX25519, IsKem), that the
-- cipher opens what it has sealed (IsCipher), and that a drawn ratchet key is a new one (FreshKey). That a
-- signature or a tag cannot be forged is nowhere assumed: theorems name the answers that they rest on.
--
-- Not modelled: the database (sqlite_store), the framing over a stream (tcp_wire), the client's side of it
-- (tcp_server_api), certificates, sockets, TLS and threads, the wiping of memory, and the programs' input
-- and output.
pub mod Prelude
pub mod Result
pub mod Protocol
pub mod Crypto
pub mod Server
pub mod Client
pub mod Examples
