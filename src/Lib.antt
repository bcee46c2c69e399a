-- ===== src/Lib.antt =====
-- vldb-lancedb: the library and the gRPC service around lancedb, modelled from the Rust code under `src/`.
--
-- The program keeps tables of rows with vectors in LanceDB. A `DatabaseManager` opens databases by name
-- and caches their connections; a `LanceDbEngine` serves five operations on the tables of one connection,
-- with a lock for each table and a semaphore for all requests; a gRPC service maps its messages to the
-- engine's inputs, runs the engine under a timeout and logs each request. A `LanceDbRuntime` makes engines
-- over a manager for programs that embed the library, and the C interface gives them to other languages.
--
-- Which file models what:
-- - Types: `src/types.rs`, every input, result and enum, field by field. The field `data` is `bytes`.
-- - Engine/Error, Engine/Options: the errors, `to_engine_error`, the options and the number of permits of
--   `src/engine.rs`.
-- - Engine/Schema: `build_arrow_schema` and `column_to_field`; `checked_field` is one round of the loop.
-- - Engine/Ingest: `extract_field_value`, the `expect_` functions and `build_array_for_field`, whose nine
--   loops over scalar rows are one function, `append_cells`.
-- - Engine/Decode: `decode_input_to_batches` and what it calls. Engine/Encode: the two encoders,
--   `json_value_from_array`, `count_rows` and `normalize_output_format`.
-- - Engine/Exec: what an operation of the engine is, a function of the state of the connection and of a
--   trace of what other requests can notice, with `?` as bind; the guards of locks and the permit.
-- - Engine/Tables: `create_table`, `vector_upsert`, `vector_search`, `delete` and `drop_table`, each whole.
--   Its children are about their guards, the order of locks and calls, and their successes.
-- - Engine/Locks: `TableAccessCoordinator`; Engine/Locks/Exclusion: its locks under any interleaving of
--   requests. Engine/Limiter: the semaphore and `acquire_concurrency_permit` under any interleaving.
-- - Manager: the names, paths and keys of `src/manager.rs`; Manager/Cache: `DatabaseManager` and
--   `open_named`; Manager/Cache/Opens: opens under any interleaving; Manager/Cache/Listing:
--   `cached_database_keys`.
-- - Runtime: `src/runtime.rs`, with `LanceDbEngine::new`; `Arcs` has the locks and the semaphores that engines
--   refer to; Runtime/Library: the library as the C interface finds it, Runtime/Foreign: a call from C down
--   to the engine.
-- - Ffi: the data of `src/ffi.rs`; Ffi/Memory: its heap, in which each call is a function of a state, and
--   where reading or freeing what is not there has no outcome; Ffi/CText, Ffi/Formats, Ffi/Inputs and
--   Ffi/Options: what it reads from C; Ffi/Worker: `ffi_runtime_worker` and `ffi_block_on`, its child Queue
--   the channel with callers on several threads; Ffi/Calls: the functions that C calls, without their prefix
--   `vldb_lancedb_`. The library beneath them is the record Ffi/Backend, which Runtime/Library
--   fills.
-- - Config: `src/config.rs`, its children the paths, `load` and what they guarantee.
-- - Logging: `src/logging.rs`, `ServiceLogger` with its file for each day.
-- - Main: `async_main` of `src/main.rs`, from the configuration to the server that serves.
-- - Service: the mapping functions of `src/service.rs`; Service/Messages: the messages of `proto/`;
--   Service/Log: the request log; Service/Preview: `preview_text`; Service/Handlers: `with_timeout` and the
--   five handlers; Service/Refusals: what they answer to requests that the engine refuses.
-- - Text, Prelude: what the program uses of Rust's `str`, `Path`, `Result` and integers. A path is one of
--   Unix.
-- - External: serde_json, Arrow, lancedb and the file system, which are parameters of the model, as are
--   the environment of Config, the system of Logging and the JSON readers and the writer of Ffi/Inputs. Only the
--   round trip of values relies on laws of theirs, `SerdeJsonLaws`. Tests/Stubs has an instance of each.
--
-- Machine integers: sums of `u64` and the counter of requests wrap around at 2^64, as a release build
-- has it; `vector_dim as i32` and `*dim as usize` are the casts of 32 and 64 bits in Prelude/Int. Loops
-- are structural recursion; the decimal printer of Text/Format runs on one round more than the number,
-- which has fewer digits than that.
--
-- The worker of the C interface takes one job in a turn; it gets as many turns as jobs are pending.
--
-- Not modelled: the tokio runtime that `main` sets up and the server of tonic; floating-point arithmetic, whose
-- conversions are parameters; the memory that builders ask for, and a panic inside the decoding task; within the engine's operations the
-- waiting for a lock, which Engine/Locks/Exclusion models by itself; paths and arguments that are not UTF-8;
-- the poisoned mutex of the logger; C callers that break their promises on the memory that they pass in.
mod Prelude
pub mod Text
pub mod Types
pub mod External
pub mod Engine
pub mod Manager
pub mod Service
pub mod Ffi
pub mod Config
pub mod Logging
pub mod Runtime
pub mod Main
pub mod Tests
