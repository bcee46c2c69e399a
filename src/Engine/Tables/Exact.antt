-- ===== src/Engine/Tables/Exact.antt =====
-- Exactly when a delete and the creation of a table succeed on an engine that is open.
use vldb_lancedb.Engine.Tables.{delete, normalize_table_name, create_table}
use vldb_lancedb.Engine.Tables.Success.{Deleted, delete-Deleted, Created, create_table-Created}
use vldb_lancedb.Prelude.{◌≡◌, false, ok, ◌↔◌, ap}
use vldb_lancedb.Engine.Exec.{
  ◌>>=◌, EngineState, refuse_if, request, pure, fail, holding_write, acquire_concurrency_permit,
  lift,
}
use vldb_lancedb.Types.{
  LanceDbDeleteInput, LanceDbDeleteResult, LanceDbCreateTableInput, LanceDbCreateTableResult,
}
use vldb_lancedb.Engine.Options.{LanceDbEngineOptions}
use vldb_lancedb.External.Lance.{Lance}
use vldb_lancedb.External.Arrow.{Arrow}
use vldb_lancedb.Engine.Error.{LanceDbEngineError}
use vldb_lancedb.External.SerdeJson.{SerdeJson}

module _ (J : SerdeJson) (panicked : LanceDbEngineError) (A : Arrow J.F32 J.F64)
    (L : Lance J.F32 A.RecordBatch) (options : LanceDbEngineOptions) where
  open L use {Db}

  delete-of_Deleted :
      (input : LanceDbDeleteInput) (r : LanceDbDeleteResult) (s : EngineState Db) (after : Db)
      → s.closed ≡ false
      → Deleted J panicked A L options input r s.db after
      → ((delete J panicked A L options input s).0 ≡ ok r)
        × ((delete J panicked A L options input s).1.db ≡ after)
  unfolding delete refuse_if ◌>>=◌ request pure fail holding_write acquire_concurrency_permit
      normalize_table_name
  delete-of_Deleted input r s after idle d = (
    rw (
      d.named, d.conditioned, idle, d.opens, d.deletes, d.message, d.version_reported,
      d.rows_reported,
    ),
    rw (d.named, d.conditioned, idle, d.opens, d.deletes),
  )

  -- On an engine whose semaphore is open, a delete succeeds with a report and leaves a database exactly if its
  -- name and its condition are not blank, the table of the trimmed name opens, and the deletion by the trimmed
  -- condition succeeds, gives what is reported and leaves that database: nothing else makes it fail.
  pub delete_iff :
      (input : LanceDbDeleteInput) (r : LanceDbDeleteResult) (s : EngineState Db) (after : Db)
      → s.closed ≡ false
      → (((delete J panicked A L options input s).0 ≡ ok r)
          × ((delete J panicked A L options input s).1.db ≡ after))
        ↔ Deleted J panicked A L options input r s.db after
  delete_iff input r s after idle = (
    λ (done, left). rw left at (
        delete-Deleted J panicked A L options input r s (delete J panicked A L options input s).1
          (ap (λ x. (x, (delete J panicked A L options input s).1)) done)),
    delete-of_Deleted input r s after idle,
  )

  create_table-of_Created :
      (input : LanceDbCreateTableInput) (r : LanceDbCreateTableResult) (s : EngineState Db)
      (after : Db)
      → s.closed ≡ false
      → Created J panicked A L options input r s.db after
      → ((create_table J panicked A L options input s).0 ≡ ok r)
        × ((create_table J panicked A L options input s).1.db ≡ after)
  unfolding create_table refuse_if ◌>>=◌ request pure fail lift holding_write
      acquire_concurrency_permit normalize_table_name
  create_table-of_Created input r s after idle c = (
    rw (c.named, c.not_empty, c.built, idle, c.creates, c.message),
    rw (c.named, c.not_empty, c.built, idle, c.creates),
  )

  -- On an engine whose semaphore is open, a creation succeeds and leaves a database exactly if its name is not
  -- blank, its columns are not empty and make a schema, and the one call that creates the table of the trimmed
  -- name with that schema, overwriting only if that was asked for, succeeds and leaves that database: nothing
  -- else makes it fail.
  pub create_table_iff :
      (input : LanceDbCreateTableInput) (r : LanceDbCreateTableResult) (s : EngineState Db)
      (after : Db)
      → s.closed ≡ false
      → (((create_table J panicked A L options input s).0 ≡ ok r)
          × ((create_table J panicked A L options input s).1.db ≡ after))
        ↔ Created J panicked A L options input r s.db after
  create_table_iff input r s after idle = (
    λ (done, left). rw left at (
        create_table-Created J panicked A L options input r s
          (create_table J panicked A L options input s).1
          (ap (λ x. (x, (create_table J panicked A L options input s).1)) done)),
    create_table-of_Created input r s after idle,
  )
