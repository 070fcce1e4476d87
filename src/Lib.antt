-- ===== src/Lib.antt =====
-- Secure file transfer: a server that keeps users, sessions, public keys and encrypted files, and
-- relays the files between users over frames on a TLS connection.
--
-- A connection receives bytes, cuts them into frames and hands each frame to a handler; the handler
-- decodes its body, calls one of three services, and answers with a frame. The services share the
-- repositories, the session store, the blob store and the audit log.
--
--   Wire       include/ports/transport.hpp: words, length-prefixed fields, `Frame` with `encodeFrame`
--              and `tryDecode`; Wire/Stream is `recvFrame` of
--              src/infrastructure/asio_tls_transport.cpp, Wire/Stream/Plain that of asio_transport.cpp
--   Protocol   src/presentation/protocol.cpp: every payload with its encoder and decoder
--   Domain     include/domain: the records, `User`, and src/domain/ids.cpp
--   Users, Sessions, Files, Keys, Blobs
--              src/infrastructure/memory_user_repo.cpp, memory_session_store.cpp,
--              memory_file_repo.cpp, memory_pubkey_directory.cpp, include/infrastructure/memory_storage.hpp
--   Validator  src/infrastructure/file_validator.cpp
--   Audit      src/infrastructure/hash_chain_file_audit.cpp
--   World      what the services share, and the library code that they call, as a record `Platform`
--   Auth, Admin, Transfers
--              src/application/auth_service.cpp, admin_service.cpp, transfer_service.cpp
--   Server     src/presentation/server_app.cpp: the state of a connection, the handlers and the accept
--              loop, which carries the users, sessions and files from one connection to the next. The
--              services run over the repositories in memory, which stand for those over SQLite that
--              the program builds and that have the same ports
--   Disk       src/infrastructure/binary_storage.cpp: blobs as files, over calls that may fail; `history`
--              has every state of the files on the way, which is what a crash of the program may leave
--   Sqlite     src/infrastructure/sqlite_file_repo.cpp, sqlite_transfer_repo.cpp, sqlite_user_repo.cpp
--              and recipient_pubkey_directory.cpp, over SQLite as a record of calls
--   Crypto     src/infrastructure/client_crypto.cpp and src/domain/key_pair.cpp, over OpenSSL as a
--              record of calls
--   Client     src/presentation/client_app.cpp: the menu of the client, over its connection, its files
--              and the lines that are typed. Client/Relay joins it to the server: every frame of
--              either side is encoded, cut into chunks anywhere and received by `recvFrame`
--   Tls        src/infrastructure/asio_tls_transport.cpp: the pinning of certificates, and connecting,
--              over OpenSSL and asio as records of calls
--   Sha256     include/infrastructure/sha256.hpp: the hash of session tokens and of the audit log
--   Policy, Repo, VectorAudit, FakeTransport, FakeCrypto
--              include/application/policy_engine.hpp, and small classes of include/infrastructure
--   Base       the Boolean tests, lists, dictionaries, bits and the exceptions that all of them use, and
--              what a chain of calls keeps
--   Tests      the theorems at work on a small server
--
-- Methods carry the source's names in snake case. A method that changes an object and may throw is a
-- function to an `Exec`: it gives a value or an exception, and the state in both cases, since what was
-- written before a throw stays written. A map is an association list. A string is the list of its
-- bytes, and numbers are natural numbers with their widths as hypotheses where they matter: fields
-- are shorter than 2^32, offsets and sizes below 2^64, times far from the bounds of 64 bits. Where
-- `Domain/Ids` draws from `std::random_device`, and a service reads the clock, the values to come are
-- a given sequence. The receive loop recurses on the chunks that are still to come, the server loop on
-- the frames. The client's loop over the chunks of an upload runs on as many rounds as the cipher text
-- has bytes, since each round sends at least one; its menu runs on a number of rounds that is given,
-- since it ends only by the entry for quitting. SHA-256 is an argument of the session store and of the
-- audit log, which `Audit/Runs` fills with `Sha256`; its loop over the blocks has as many rounds as the
-- padded message has bytes, and that over the zeros 64, which is more than are missing to a block.
--
-- Not modelled: Argon2, path normalization, decimal printing and parsing, which are arguments;
-- SQLite, OpenSSL, asio and the file system, which are records of calls or oracles, with what they
-- document as named hypotheses; TLS itself and the listener of the server; prompts and other console
-- output; the flushing of the audit file, and a write to it that fails; what a loss of power leaves of
-- a disk; a file that shrinks while it is read; the casts of sizes to `int` in the client's
-- cryptography, for texts of 2^31 bytes and more; the Windows branches. The server runs one connection at a
-- time, as the accept loop does, so that there is no interleaving.
pub mod Base
pub mod Wire
pub mod Domain
pub mod Protocol
pub mod Users
pub mod Sessions
pub mod Files
pub mod Keys
pub mod Validator
pub mod Blobs
pub mod Crypto
pub mod Sha256
pub mod Tls
pub mod Sqlite
pub mod Client
pub mod Disk
pub mod Audit
pub mod World
pub mod Auth
pub mod Admin
pub mod Transfers
pub mod Server
pub mod Policy
pub mod FakeTransport
pub mod FakeCrypto
pub mod Repo
pub mod VectorAudit
pub mod Tests
