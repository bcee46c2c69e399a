-- ===== src/Engine/Tables/Success.antt =====
-- What a success that an operation reports says about the database: which calls were made, with which
-- arguments, and where the numbers of the report come from.
use vldb_lancedb.Engine.Schema.{Schema, build_arrow_schema}
use vldb_lancedb.Prelude.{◌≡◌, false, ok, is_nil, if◌then◌else◌, ◌<>◌}
use vldb_lancedb.Text.{trim, is_empty}
use vldb_lancedb.Types.{
  LanceDbDeleteInput, LanceDbDeleteResult, LanceDbDropTableInput, LanceDbCreateTableInput,
  LanceDbCreateTableResult, LanceDbDropTableResult,
}
use vldb_lancedb.External.SerdeJson.{SerdeJson}
use vldb_lancedb.External.Arrow.{Arrow}
use vldb_lancedb.External.Lance.{Lance, DeleteResult, overwrite, create}
use vldb_lancedb.Engine.Error.{LanceDbEngineError}
use vldb_lancedb.Engine.Options.{LanceDbEngineOptions}
use vldb_lancedb.Engine.Exec.{EngineState}
use vldb_lancedb.Engine.Exec.Inversion.{
  pure-eq-ok, after_request, after_refuse, after_permit, inside_write, after_lift,
}
use vldb_lancedb.Engine.Tables.{delete, create_table, drop_table}

module _ (J : SerdeJson) (panicked : LanceDbEngineError) (A : Arrow J.F32 J.F64)
    (L : Lance J.F32 A.RecordBatch) (options : LanceDbEngineOptions) where
  open L use {Db, Table}

  pub record Deleted (input : LanceDbDeleteInput) (r : LanceDbDeleteResult) (before after : Db)
      : Type 0 where
    pub named : is_empty (trim input.table_name) ≡ false
    pub conditioned : is_empty (trim input.condition) ≡ false
    pub table : Table
    pub opened : Db
    pub result : DeleteResult
    pub opens : L.open_table (trim input.table_name) before ≡ (ok table, opened)
    pub deletes : L.delete table (trim input.condition) opened ≡ (ok result, after)
    pub message : r.message ≡ "delete completed for '" <> (trim input.table_name <> "'")
    pub version_reported : r.version ≡ result.version
    pub rows_reported : r.deleted_rows ≡ result.num_deleted_rows

  pub delete-Deleted :
      (input : LanceDbDeleteInput) (r : LanceDbDeleteResult) (s s' : EngineState Db)
      → delete J panicked A L options input s ≡ (ok r, s')
      → Deleted input r s.db s'.db
  unfolding delete
  delete-Deleted input r s s' h = after_refuse _ _ _ _ _ _ h λ named h1.
      after_refuse _ _ _ _ _ _ h1 λ conditioned h2. after_permit _ _ _ _ h2 λ s1 same1 h3.
        inside_write _ _ _ _ _ h3 λ s2 t same2 h4 same3.
          after_request _ _ _ _ _ _ _ h4 λ table s3 opens h5.
            after_request _ _ _ _ _ _ _ h5 λ result s4 deletes h6.
              let (report, same4) = pure-eq-ok _ r s4 t h6 in
              record {
                named = named;
                conditioned = conditioned;
                table = table;
                opened = s3.db;
                result = result;
                opens = rw (← same1, ← same2) opens;
                deletes = rw (← same3, ← same4) deletes;
                message = cc;
                version_reported = cc;
                rows_reported = cc;
              }

  pub record Created (input : LanceDbCreateTableInput) (r : LanceDbCreateTableResult)
      (before after : Db) : Type 0 where
    pub named : is_empty (trim input.table_name) ≡ false
    pub not_empty : is_nil input.columns ≡ false
    pub schema : Schema
    pub built : build_arrow_schema input.columns ≡ ok schema
    pub creates :
        L.create_empty_table
          (trim input.table_name)
          schema
          (if input.overwrite_if_exists then overwrite else create)
          before
        ≡ (ok tt, after)
    pub message : r.message ≡ "table '" <> (trim input.table_name <> "' is ready")

  pub create_table-Created :
      (input : LanceDbCreateTableInput) (r : LanceDbCreateTableResult) (s s' : EngineState Db)
      → create_table J panicked A L options input s ≡ (ok r, s')
      → Created input r s.db s'.db
  unfolding create_table
  create_table-Created input r s s' h = after_refuse _ _ _ _ _ _ h λ named h1.
      after_refuse _ _ _ _ _ _ h1 λ not_empty h2. after_lift _ _ _ _ _ h2 λ schema built h3.
        after_permit _ _ _ _ h3 λ s1 same1 h4. inside_write _ _ _ _ _ h4 λ s2 t same2 h5 same3.
          after_request _ _ _ _ _ _ _ h5 λ u s3 creates h6.
            let (report, same4) = pure-eq-ok _ r s3 t h6 in
            record {
              named = named;
              not_empty = not_empty;
              schema = schema;
              built = built;
              creates = rw (← same3, ← same4, ← same1, ← same2) creates;
              message = cc;
            }

  pub record Dropped (input : LanceDbDropTableInput) (before after : Db) : Type 0 where
    pub named : is_empty (trim input.table_name) ≡ false
    pub drops : L.drop_table (trim input.table_name) before ≡ (ok tt, after)

  -- A reported success of a drop: the name is not blank, and the drop of the table of the trimmed name
  -- succeeded and left the database as it is.
  pub drop_table-Dropped :
      (input : LanceDbDropTableInput) (r : LanceDbDropTableResult) (s s' : EngineState Db)
      → drop_table J panicked A L options input s ≡ (ok r, s')
      → Dropped input s.db s'.db
  unfolding drop_table
  drop_table-Dropped input r s s' h = after_refuse _ _ _ _ _ _ h λ named h1.
      after_permit _ _ _ _ h1 λ s1 same1 h2. inside_write _ _ _ _ _ h2 λ s2 t same2 h3 same3.
        after_request _ _ _ _ _ _ _ h3 λ u s3 drops h4.
          let (_, same4) = pure-eq-ok _ r s3 t h4 in
          record { named = named; drops = rw (← same3, ← same4, ← same1, ← same2) drops }
