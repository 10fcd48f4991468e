-- ===== src/Lib.antt =====
-- deb-s3: APT repositories in an object store.
--
-- The program keeps Debian packages, their Packages indexes and a signed Release file in an S3
-- bucket. Upload, copy, delete, verify and clean read the Release and the indexes of one codename,
-- change them in memory, and publish them in an order: package bodies first, then immutable by-hash
-- indexes, canonical indexes, and last the Release with its signatures. A lock object guards the
-- changes.
--
-- Files, by the directory of the source that they model:
--   Prelude        lists, bytes, results, maps and 64-bit numbers that the parts share
--   GoPath, Digest what the program uses of the packages path, encoding/hex, crypto and gzip
--   Samples        values that the Tests modules of the parts share
--   Host           what it reads from the machine: the clock, the user, local files
--   Codename       the check on codenames, in internal/maintenance and internal/lock
--   Storage        internal/storage: Key for JoinKey, Types for the interface, Memory for the
--                  operations of MemoryStore, S3 for those of S3Store; Plan for lists of calls that a
--                  procedure follows
--   Apt            internal/apt: Control, Dependency, Package, Render, Manifest, Artifacts
--                  (manifest_publish.go), Release, Publish (release_publish.go, metadata_publish.go)
--   Lock           internal/lock: Acquire, Release, Current and the back-off
--   Upload, Manage, Query, Maintenance, Config
--                  the packages of these names in internal
--   Deb            internal/deb: Ar for ar.go, Control for the control archive, Deb for the loop of
--                  ReadPackage
--   Signing        internal/signing: ParseOptions, and Gpg for Sign
--   Cli            internal/cli: the commands, Flags for the values of flags, Locking for
--                  withRepositoryLock, Output for what list prints
--
-- Operations keep the names of their Go functions in snake case, and run in the monad `Exec S` of
-- functions from a state to a result and a state. `S` is whatever stands behind a `Store`, such as
-- `memory_store`. S3Store runs on the state behind a client of the SDK; Storage/S3/Bucket has, as a
-- record of laws, what S3 documents of the client's calls as far as the store relies on it, for keys
-- and requests within its limits; Storage/S3/Races lets others write between two calls.
--
-- Conventions. A text is a list of bytes. Space, letters and letter case are those of ASCII. Error
-- values are constructors, and `wrapped` stands for `%w`; the texts of messages are left out. A Go map
-- is an association list. A nil store, progress callbacks and errors of closing a file are left out.
-- Reading a local file gives its bytes, or an error when it is opened or read. A stream of bytes gives
-- as many as a read asks for, then ends or fails. A context is what
-- `ctx.Err()` returns when an operation starts.
--
-- Parameters. gzip, the digests, the clock, the local files, the glob, the inspector of packages, JSON,
-- the signer, the client of S3, the decompressors, archive/tar, the file system and the programs that
-- signing runs are arguments of the definitions that use them. JSON is taken to give an owner back only
-- if its texts are ASCII. A lock is released under a context of its own, so the store that Release uses
-- is an argument too.
--
-- Fuel. `Acquire` may wait for ever, so its loop takes a number of rounds and returns no value when
-- they run out; so do the commands that lock. The pages of a listing of S3 and the members of an archive
-- are taken on fuel as well: as many rounds as there are pages are enough for the first, one more than
-- there are bytes for the second. All other loops are structural.
--
-- Not modelled: the parsing of the command line and the declaration of flags, which are a third-party
-- library's, what the commands print while they run, and the exit code.
pub mod Prelude
pub mod Samples
pub mod GoPath
pub mod Digest
pub mod Storage
pub mod Codename
pub mod Apt
pub mod Host
pub mod Query
pub mod Manage
pub mod Maintenance
pub mod Lock
pub mod Upload
pub mod Config
pub mod Deb
pub mod Signing
pub mod Cli
