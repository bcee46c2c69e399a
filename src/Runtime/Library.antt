-- ===== src/Runtime/Library.antt =====
-- The library as the C interface finds it: runtimes and engines in a world of connections. A runtime is the
-- number of its manager, which its clones share. The worker runs one job at a time, so that an operation
-- finds the locks of its engine free.
use vldb_lancedb.Engine.Tables.{create_table, vector_upsert, vector_search, delete, drop_table}
use vldb_lancedb.Engine.Options.{LanceDbEngineOptions}
use vldb_lancedb.Runtime.{
  LanceDbEngine, LanceDbRuntime, open_named_engine, runtime_of, runtime_path_for_name, Arcs,
}
use vldb_lancedb.Engine.Exec.{Exec, EngineState}
use vldb_lancedb.Ffi.Backend.{Backend, Job}
use vldb_lancedb.External.Storage.{Storage}
use vldb_lancedb.External.Lance.{Lance}
use vldb_lancedb.External.Arrow.{Arrow}
use vldb_lancedb.Prelude.{
  String, ℕ, Option, false, if◌then◌else◌, some, Result, [], map_err, ◌==◌, err, none, suc,
}
use vldb_lancedb.Engine.Error.{LanceDbEngineError}
use Prim.Native.String.{String}
use vldb_lancedb.External.SerdeJson.{SerdeJson}
use vldb_lancedb.Manager.{BoxError, invalid_input, other_error, DatabaseRuntimeConfig}

abbrev text_of : BoxError → String
text_of (invalid_input text) = text
text_of (other_error text) = text

module _ (J : SerdeJson) (panicked : LanceDbEngineError) (A : Arrow J.F32 J.F64)
    (L : Lance J.F32 A.RecordBatch) (S : Storage ℕ) where
  -- `dbs` are the databases of the connections.
  pub record LibraryWorld : Type 0 where
    pub runtimes : ℕ → Option (LanceDbRuntime ℕ)
    pub next : ℕ
    pub storage : S.World
    pub arcs : Arcs
    pub dbs : ℕ → L.Db

  abbrev pub started_on : LibraryWorld → ℕ → EngineState L.Db
  started_on w connection = record { db = w.dbs connection; closed = false; trace = [] }

  -- An operation on the database of a connection, its error as the text that it displays
  unfoldable pub run_on : {R : Type 0} → ℕ → Exec L.Db R → Job LibraryWorld R
  run_on connection operation w =
      let (answer, after) = operation (started_on w connection) in
      (
        some (map_err (λ e. e.message) answer),
        record w { dbs = λ c. if c == connection then after.db else w.dbs c },
      )

  abbrev pub add_runtime :
      DatabaseRuntimeConfig → LanceDbEngineOptions → LibraryWorld → ℕ × LibraryWorld
  add_runtime config options w = (
    w.next,
    record w {
      runtimes = λ r. if r == w.next then some (runtime_of config options) else w.runtimes r;
      next = suc w.next;
    },
  )

  abbrev pub path_in : Option (LanceDbRuntime ℕ) → Option String → Result String String
  path_in none name = err "no such runtime"
  path_in (some runtime) name = map_err text_of (runtime_path_for_name runtime name)

  abbrev pub open_in :
      ℕ
      → Option String
      → LibraryWorld
      → Option (LanceDbRuntime ℕ)
      → Option (Result (LanceDbEngine ℕ) String) × LibraryWorld
  open_in id name w none = (none, w)
  open_in id name w (some runtime) =
      let (opened, runtime', storage, arcs) = open_named_engine S runtime name w.storage w.arcs in
      (
        some (map_err text_of opened),
        record w {
          runtimes = λ r. if r == id then some runtime' else w.runtimes r;
          storage = storage;
          arcs = arcs;
        },
      )

  abbrev pub library : Backend
  library = record {
    F32 = J.F32;
    Runtime = ℕ;
    Engine = LanceDbEngine ℕ;
    World = LibraryWorld;
    new_runtime = add_runtime;
    database_path_for_name = λ id name w. path_in (w.runtimes id) name;
    open_named_engine = λ id name w. open_in id name w (w.runtimes id);
    create_table =
        λ engine input. run_on engine.db (create_table J panicked A L engine.options input);
    vector_upsert =
        λ engine input. run_on engine.db (vector_upsert J panicked A L engine.options input);
    vector_search =
        λ engine input. run_on engine.db (vector_search J panicked A L engine.options input);
    delete = λ engine input. run_on engine.db (delete J panicked A L engine.options input);
    drop_table = λ engine input. run_on engine.db (drop_table J panicked A L engine.options input);
  }
