-- ===== src/Lib.antt =====
-- A model of `sanitizer`, a command-line tool that shreds files (sanitizer/src), with proofs about
-- its core. Paths below are from the repository's root.
--
-- The parts and the files that model them:
--   Io/*          what the code calls of the system. `World` is the disk, a moment that each call
--                 advances, and the trace of effects, the newest first. An `Action` reads the
--                 `System`, changes the world and ends in an `Outcome`: a value, an error, a panic
--                 or spent fuel. Io/Files.antt and Io/Folders.antt have the calls of `std::fs`; each may
--                 be refused at its moment, and a refused write may have put down a part. Io/Error.antt is
--                 sanitizer/src/error.rs. Io/Triple.antt has the total Hoare triples in which
--                 statements about actions are made: a triple excludes panics and spent fuel.
--                 Io/Quiet.antt has actions where the system refuses nothing.
--   Crypto/*      sanitizer/src/crypto: rng.rs (Rng), aead.rs (Aead), kdf.rs (Kdf), hashing.rs
--                 (Hashing), and `secure_zero` of secure_mem.rs (Memory). The ciphers, hashes and generators
--                 themselves are parameters; a hasher is the bytes that it was given.
--   Storage/*     sanitizer/src/storage: the classes of storage of device.rs (Info) and their
--                 detection (Device), and filesystem.rs (Filesystem).
--   Sanitize/*    sanitizer/src/sanitize: patterns.rs (Patterns), metadata.rs (Metadata),
--                 engine.rs (Engine) and directory.rs (Directory). `shred_file` calls `fill_pass` for each chunk and
--                 `sanitize_metadata_and_unlink` at the end; `shred_directory` calls `shred_file`
--                 for each file of a walk.
--                 Sanitize/Engine/Sweep.antt tells what the passes do from the writes and syncs in the trace.
--   Audit         sanitizer/src/audit/mod.rs: entries, what is signed, and the replay of a log;
--                 Audit/Record.antt has `open`, `record` and `verify_file`. `serde_json` is the
--                 parameter `Json`.
--   Verify        sanitizer/src/verify/mod.rs: the report on the bytes of a file.
--   Vault         sanitizer/src/vault/mod.rs: Vault/Container.antt has the format of the container and
--                 the table of the entries, Vault.antt the operations. `serde_json` on the table is
--                 the parameter `HeaderJson`.
--   Snapshot      sanitizer/src/snapshot/mod.rs: the scans, over the output of the programs that they run.
--   Report        sanitizer/src/report/mod.rs: totals and CSV.
--   Cli           sanitizer/src/main.rs: the handlers of `wipe`, `wipe-dir` and the vault's commands, each
--                 with its record in the audit log. Details of records are texts that the parameter
--                 `DetailsJson` gives.
--   Base/*        shared lemmas on numbers, lists and texts, with the decimal notation.
--   Samples, Examples  concrete systems, files and logs, and the theorems applied to them.
--
-- Numbers are natural numbers. The counts of wiped bytes are added modulo 2^64 as in the code; lengths, the
-- counts of passes and files and the sequence numbers of a log, which are u64 or usize there, have no
-- bound, so that the model is the code's as long as a log has less than 2^64 entries. Only the loop
-- over the chunks has fuel: it starts with one more than the length of the file, and each round
-- writes a byte at least. `f64` values are bit patterns: comparisons are computed, arithmetic is a
-- parameter. The cancellation flag is read from the system at each moment, so that it may be set
-- between any two steps. Progress calls are events of the trace.
--
-- The random sources fill a buffer to its length: that is the hypothesis `FillsBuffers` where a
-- theorem needs it. A path has no symbolic link behind it, and no other process changes the files.
--
-- The threads of `shred_directory` are modelled one after the other, in an order that the system
-- chooses, so that two files are never written at once. What a walk of a tree or a listing of a
-- directory yields is the system's answer too; the disk itself has no listing.
--
-- Not modelled: what the handlers of sanitizer/src/main.rs print, its commands that only print, its
-- benchmark and the parsing of its arguments; the reports in JSON and for people, and the
-- locking of memory and the zeroing of buffers when they are dropped
-- (sanitizer/src/crypto/secure_mem.rs), whose effect no safe code sees.
pub mod Base
pub mod Io
pub mod Crypto
pub mod Storage
pub mod Sanitize
pub mod Audit
pub mod Verify
pub mod Vault
pub mod Snapshot
pub mod Report
pub mod Cli
mod Samples
mod Examples
