-- ===== src/Runtime.antt =====
-- src/runtime.rs: the embedded runtime, and `LanceDbEngine::new` of src/engine.rs, which it calls.
pub mod Engines
pub mod Library
pub mod Foreign
use vldb_lancedb.Engine.Limiter.{Limiter, new_limiter}
use vldb_lancedb.External.Storage.{Storage}
use vldb_lancedb.Manager.Cache.{DatabaseManager, Outcome, new_manager, open_named}
use vldb_lancedb.Prelude.{Option, String, none, Result, ok, err, ℕ, if◌then◌else◌, ◌==◌, suc}
use vldb_lancedb.Manager.{DatabaseRuntimeConfig, BoxError, database_path_for_name}
use vldb_lancedb.Engine.Options.{LanceDbEngineOptions}
use vldb_lancedb.Engine.Locks.{TableAccessCoordinator, new_coordinator}

-- The objects behind the `Arc`s of the engines, by their addresses: a table's locks and the semaphores that
-- engines refer to, and the address that the next engine gives to its own.
pub record Arcs : Type 0 where
  pub coordinators : ℕ → TableAccessCoordinator
  pub limiters : ℕ → Limiter
  pub next : ℕ

-- `table_access` and `concurrency_limiter` are references, which the clones of an engine share.
pub record LanceDbEngine (Connection : Type 0) : Type 0 where
  pub db : Connection
  pub table_access : ℕ
  pub concurrency_limiter : ℕ
  pub options : LanceDbEngineOptions

pub record LanceDbRuntime (Connection : Type 0) : Type 0 where
  pub manager : DatabaseManager Connection
  pub engine_options : LanceDbEngineOptions

module _ {Connection : Type 0} where
  -- `LanceDbEngine::new`
  unfoldable pub new_engine :
      Connection → LanceDbEngineOptions → Arcs → LanceDbEngine Connection × Arcs
  new_engine db options arcs = (
    record {
      db = db;
      table_access = arcs.next;
      concurrency_limiter = arcs.next;
      options = options;
    },
    record {
      coordinators = λ a. if a == arcs.next then new_coordinator else arcs.coordinators a;
      limiters = λ a. if a == arcs.next then new_limiter options else arcs.limiters a;
      next = suc arcs.next;
    },
  )

  -- `LanceDbRuntime::new`
  unfoldable pub runtime_of :
      DatabaseRuntimeConfig → LanceDbEngineOptions → LanceDbRuntime Connection
  runtime_of config options = record { manager = new_manager config; engine_options = options }

  unfoldable pub runtime_path_for_name :
      LanceDbRuntime Connection → Option String → Result String BoxError
  runtime_path_for_name runtime database_name =
      database_path_for_name runtime.manager.config database_name

module _ {Connection : Type 0} (S : Storage Connection) where
  abbrev pub OpenOutcome : Type 0
  OpenOutcome =
      Result (LanceDbEngine Connection) BoxError × LanceDbRuntime Connection × S.World × Arcs

  abbrev pub engine_on : LanceDbRuntime Connection → Arcs → Outcome S → OpenOutcome
  engine_on runtime arcs (ok connection, manager, w) =
      let (engine, arcs') = new_engine connection runtime.engine_options arcs in
      (ok engine, record runtime { manager = manager }, w, arcs')
  engine_on runtime arcs (err e, manager, w) =
      (err e, record runtime { manager = manager }, w, arcs)

  unfoldable pub open_named_engine :
      LanceDbRuntime Connection → Option String → S.World → Arcs → OpenOutcome
  open_named_engine runtime database_name w arcs =
      engine_on runtime arcs (open_named S runtime.manager database_name w)

  abbrev pub open_default_engine : LanceDbRuntime Connection → S.World → Arcs → OpenOutcome
  open_default_engine runtime w arcs = open_named_engine runtime none w arcs
