-- ===== src/Runtime/Foreign.antt =====
-- src/ffi.rs and src/engine.rs: a call of the C interface over the library, down to the engine.
use vldb_lancedb.Engine.Exec.{EngineState}
use vldb_lancedb.Engine.Tables.{vector_upsert}
use vldb_lancedb.Ffi.CText.{sanitize_message, cstring_new-sanitize_message}
use vldb_lancedb.Ffi.{
  CString, status_code, VldbLancedbUpsertResultPod, VldbLancedbFfiInputFormat, success,
}
use vldb_lancedb.Runtime.{LanceDbEngine}
use vldb_lancedb.Ffi.Worker.Queue.Served.{ffi_block_on-started}
use vldb_lancedb.Types.{LanceDbUpsertResult, LanceDbUpsertInput}
use vldb_lancedb.Ffi.Calls.Tables.{engine_vector_upsert_raw, Status, failed_status, upsert_pod}
use vldb_lancedb.Runtime.Library.{library, run_on, started_on, LibraryWorld}
use vldb_lancedb.Ffi.Inputs.{FfiJson, raw_upsert_input}
use vldb_lancedb.Ffi.Worker.{known_startup, ffi_block_on, received}
use vldb_lancedb.External.Storage.{Storage}
use vldb_lancedb.Ffi.Calls.{State, on_some, on_ok, fail_with}
use vldb_lancedb.External.Lance.{Lance}
use vldb_lancedb.External.Arrow.{Arrow}
use vldb_lancedb.Ffi.Memory.{
  ◌>>=◌, clear_last_error, engine_handle_ref, Call, read_heap, engine_at, pure, started,
  engine_handle, ◌>>◌, set_last_error, continue,
}
use vldb_lancedb.Engine.Error.{LanceDbEngineError}
use vldb_lancedb.Ffi.Backend.{Backend, Job}
use vldb_lancedb.External.SerdeJson.{SerdeJson}
use vldb_lancedb.Prelude.{
  refl, ℕ, ◌≡◌, List, some, Result, Option, none, String, ok, err, map_err, false, arith, ◌∙◌, ap,
}

module _ (B : Backend) where
  open B use {Runtime, Engine, World}

  -- A call on a live engine goes on with the engine, without a message.
  engine_handle_ref-live :
      {R : Type 0} (value : R) (address : ℕ) (engine : Engine) (next : Engine → Call (State B) R)
      (s : State B)
      → s.heap address ≡ some (engine_handle engine)
      → (clear_last_error
            >> (engine_handle_ref (some address) >>= λ found. on_some B value found next))
          s
        ≡ next engine (record s { last_error = none })
  unfolding clear_last_error engine_handle_ref read_heap engine_at on_some pure ◌>>=◌
  engine_handle_ref-live value address engine next s at = rw at refl

  -- A job runs on the worker that has started, and its answer goes on.
  ffi_block_on-on_ok :
      {A R : Type 0} (value : R) (job : Job World A) (next : A → Call (State B) R) (s : State B)
      → known_startup s.startup s.worker ≡ started
      → (ffi_block_on job >>= λ answer. on_ok B value answer next) s
        ≡ on_ok B value
            (received (job s.world).0)
            next
            (record s { worker = some (known_startup s.startup s.worker); world = (job s.world).1 })
  unfolding ◌>>=◌
  ffi_block_on-on_ok value job next s ready = rw (ffi_block_on-started job s ready, continue) refl

module _ (J : SerdeJson) (panicked : LanceDbEngineError) (A : Arrow J.F32 J.F64)
    (L : Lance J.F32 A.RecordBatch) (S : Storage ℕ) (F : FfiJson J.F32)
    (capacity : List ℕ → ℕ) where
  abbrev pub C : Backend
  C = library J panicked A L S

  -- What C gets for the answer of the engine: a status, a report and a message
  abbrev pub status_for :
      Result LanceDbUpsertResult LanceDbEngineError → Status VldbLancedbUpsertResultPod
  status_for (ok result) = (
    0,
    some (record {
      version = result.version;
      input_rows = result.input_rows;
      inserted_rows = result.inserted_rows;
      updated_rows = result.updated_rows;
      deleted_rows = result.deleted_rows;
    }),
  )
  status_for (err e) = (1, none)

  abbrev pub message_for : Result LanceDbUpsertResult LanceDbEngineError → Option String
  message_for (ok result) = none
  message_for (err e) = some (sanitize_message e.message)

  answered :
      (answer : Result LanceDbUpsertResult LanceDbEngineError) (s : State C)
      → s.last_error ≡ none
      → (s' : State C) × (on_ok C failed_status
            (map_err (λ e. e.message) answer)
            (λ result. pure (status_code success, some (upsert_pod C F capacity result)))
            s
          ≡ some (status_for answer, s'))
        × (s'.last_error ≡ message_for answer)
        × (s'.world ≡ s.world)
  unfolding on_ok fail_with set_last_error pure ◌>>=◌ status_code upsert_pod
  answered (ok result) s h = (s, refl, h, refl)
  answered (err e) s h = (_, refl, cstring_new-sanitize_message e.message, refl)

  -- A raw upsert from C, on a live engine and with arguments that make an input, does on the database of the
  -- engine's connection what `vector_upsert` does there: the database is left as that leaves it, the status
  -- is 0 exactly if it succeeded, with the version and the four counts of rows that it reports; otherwise the
  -- status is 1, nothing is reported, and its message is set.
  pub engine_vector_upsert_raw-vector_upsert :
      (address : ℕ) (engine : LanceDbEngine ℕ) (table_name : CString)
      (format : VldbLancedbFfiInputFormat) (source : Option (List ℕ)) (data_len : ℕ)
      (keys : Option (List CString)) (keys_len : ℕ) (input : LanceDbUpsertInput) (s : State C)
      → s.heap address ≡ some (engine_handle engine)
      → known_startup s.startup s.worker ≡ started
      → raw_upsert_input table_name format source data_len keys keys_len ≡ ok input
      → let (answer, after) =
          vector_upsert J panicked A L engine.options input
            (started_on J panicked A L S s.world engine.db) in
        (s' : State C) × (engine_vector_upsert_raw C F capacity
            (some address)
            table_name
            format
            source
            data_len
            keys
            keys_len
            false
            s
          ≡ some (status_for answer, s'))
        × (s'.last_error ≡ message_for answer)
        × (s'.world.dbs engine.db ≡ after.db)
  unfolding engine_vector_upsert_raw run_on on_ok
  engine_vector_upsert_raw-vector_upsert address engine table_name format source data_len keys
        keys_len input s at ready made =
      let (s', e, message, world) =
        answered (vector_upsert J panicked A L engine.options input start).0
          (record s {
            last_error = none;
            worker = some (known_startup s.startup s.worker);
            world = (job s.world).1;
          })
          refl in
      (
        s',
        engine_handle_ref-live C failed_status address engine _ s at
            ∙ ap (λ r. on_ok C failed_status r after_input (record s { last_error = none })) made
            ∙ ffi_block_on-on_ok C failed_status job report (record s { last_error = none }) ready
            ∙ e,
        message,
        ap (λ w. w.dbs engine.db) world ∙ own,
      )
    where
      start : EngineState L.Db
      start = started_on J panicked A L S s.world engine.db

      job : Job (LibraryWorld J panicked A L S) LanceDbUpsertResult
      job = run_on J panicked A L S engine.db (vector_upsert J panicked A L engine.options input)

      report : LanceDbUpsertResult → Call (State C) (Status VldbLancedbUpsertResultPod)
      report result = pure (status_code success, some (upsert_pod C F capacity result))

      after_input : LanceDbUpsertInput → Call (State C) (Status VldbLancedbUpsertResultPod)
      after_input given = do
        answer ←
            ffi_block_on (
              run_on J panicked A L S engine.db (vector_upsert J panicked A L engine.options given))
        on_ok C failed_status answer report

      own :
          (job s.world).1.dbs engine.db
          ≡ (vector_upsert J panicked A L engine.options input start).1.db
      own = ground arith
