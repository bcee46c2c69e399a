-- ===== src/Engine/Tables/Upserts.antt =====
-- What a success of `vector_upsert` says: nothing is written for no rows, rows without key columns are
-- appended, and rows with key columns are merged; the report counts what was decoded and what was done.
use vldb_lancedb.Engine.Exec.Inversion.{
  after_request, pure-eq-ok, after_refuse, after_lift, after_permit, inside_write,
}
use vldb_lancedb.Engine.Decode.{decode_input_to_batches}
use vldb_lancedb.Engine.Exec.{EngineState}
use vldb_lancedb.Text.{is_empty, trim}
use vldb_lancedb.Engine.Schema.{Schema}
use vldb_lancedb.Prelude.{
  String, List, ℕ, ◌≡◌, ◌≢◌, ok, false, Bool-cases, is_nil, length, true, ◌≤◌, inl, inr, arith,
  ◌==◌,
}
use vldb_lancedb.Engine.Tables.{write_batches, write_rows, vector_upsert, upsert_locked}
use vldb_lancedb.Types.{LanceDbUpsertInput, LanceDbUpsertResult}
use vldb_lancedb.Engine.Options.{LanceDbEngineOptions}
use vldb_lancedb.External.Lance.{Lance, append, MergeResult}
use vldb_lancedb.External.Arrow.{Arrow}
use vldb_lancedb.Engine.Error.{LanceDbEngineError}
use vldb_lancedb.External.SerdeJson.{SerdeJson}
use mathlib.Core.Path.{subst, sym}

module _ (J : SerdeJson) (panicked : LanceDbEngineError) (A : Arrow J.F32 J.F64)
    (L : Lance J.F32 A.RecordBatch) (options : LanceDbEngineOptions) where
  open A use {RecordBatch}
  open L use {Db, Table}

  -- The three ways to write decoded batches to the table
  pub data Wrote (input : LanceDbUpsertInput) (table : Table) (batches : List RecordBatch)
      (rows : ℕ) (r : LanceDbUpsertResult) (before after : Db) : Type 0 where
    nothing :
        rows ≡ 0
        → L.version table before ≡ (ok r.version, after)
        → (r.inserted_rows ≡ 0) × (r.updated_rows ≡ 0) × (r.deleted_rows ≡ 0)
        → Wrote input table batches rows r before after
    appended :
        (schema : Schema) (described added : Db)
        → rows ≢ 0
        → is_nil input.key_columns ≡ true
        → L.schema table before ≡ (ok schema, described)
        → L.add table append schema batches described ≡ (ok tt, added)
        → L.version table added ≡ (ok r.version, after)
        → (r.inserted_rows ≡ rows) × (r.updated_rows ≡ 0) × (r.deleted_rows ≡ 0)
        → Wrote input table batches rows r before after
    merged :
        (schema : Schema) (described : Db) (result : MergeResult)
        → rows ≢ 0
        → is_nil input.key_columns ≡ false
        → L.schema table before ≡ (ok schema, described)
        → L.merge_insert table
            (record {
              keys = input.key_columns;
              when_matched_update_all = true;
              when_not_matched_insert_all = true;
            })
            schema
            batches
            described
          ≡ (ok result, after)
        → (r.version ≡ result.version)
          × (r.inserted_rows ≡ result.num_inserted_rows)
          × (r.updated_rows ≡ result.num_updated_rows)
          × (r.deleted_rows ≡ result.num_deleted_rows)
        → Wrote input table batches rows r before after

  pub record Upserted (input : LanceDbUpsertInput) (r : LanceDbUpsertResult) (before after : Db)
      : Type 0 where
    pub named : is_empty (trim input.table_name) ≡ false
    pub fits : length input.bytes ≤ options.max_upsert_payload
    pub table : Table
    pub opened : Db
    pub opens : L.open_table (trim input.table_name) before ≡ (ok table, opened)
    pub schema : Schema
    pub described : Db
    pub describes : L.schema table opened ≡ (ok schema, described)
    pub batches : List RecordBatch
    pub decodes :
        decode_input_to_batches J A input.input_format input.bytes schema
        ≡ ok (batches, r.input_rows)
    pub wrote : Wrote input table batches r.input_rows r described after

  write_batches-Wrote :
      (input : LanceDbUpsertInput) (name : String) (table : Table) (schema : Schema)
      (batches : List RecordBatch) (rows : ℕ) (before : Db) (r : LanceDbUpsertResult)
      (s s' : EngineState Db)
      → rows ≢ 0
      → L.schema table before ≡ (ok schema, s.db)
      → write_batches J panicked A L options input name table schema batches rows s ≡ (ok r, s')
      → (r.input_rows ≡ rows) × Wrote input table batches rows r before s'.db
  unfolding write_batches
  write_batches-Wrote input name table schema batches rows before r s s' some_rows describes h =
      elim (Bool-cases (is_nil input.key_columns)) [
        | inl e ↦ after_request _ _ _ _ _ _ _ (rw e at h) λ u s1 adds h1.
            after_request _ _ _ _ _ _ _ h1 λ version s2 versions h2.
              let (report, same) = pure-eq-ok _ r s2 s' h2 in
              (
                cc,
                appended schema s.db s1.db some_rows e describes adds (ground (arith, versions))
                    (ground arith),
              )
        | inr e ↦ after_request _ _ _ _ _ _ _ (rw e at h) λ result s1 merges h1.
            let (report, same) = pure-eq-ok _ r s1 s' h1 in
            (
              cc,
              merged schema s.db result some_rows e describes (rw (← same) merges) (ground arith),
            )
      ]

  write_rows-Wrote :
      (input : LanceDbUpsertInput) (name : String) (table : Table) (batches : List RecordBatch)
      (rows : ℕ) (r : LanceDbUpsertResult) (s s' : EngineState Db)
      → write_rows J panicked A L options input name table batches rows s ≡ (ok r, s')
      → (r.input_rows ≡ rows) × Wrote input table batches rows r s.db s'.db
  unfolding write_rows
  write_rows-Wrote input name table batches rows r s s' h = elim (Bool-cases (rows == 0)) [
    | inl e ↦ after_request _ _ _ _ _ _ _ (rw e at h) λ version s1 versions h1.
        let (report, same) = pure-eq-ok _ r s1 s' h1 in
        (ground arith, nothing (ground arith) (ground (arith, versions)) (ground arith))
    | inr e ↦ after_request _ _ _ _ _ _ _ (rw e at h) λ schema s1 describes h1.
        write_batches-Wrote input name table schema batches rows s.db r s1 s' (ground arith)
          describes h1
  ]

  upsert_locked-Wrote :
      (input : LanceDbUpsertInput) (name : String) (r : LanceDbUpsertResult) (s s' : EngineState Db)
      → upsert_locked J panicked A L options input name s ≡ (ok r, s')
      → (table : Table) × (opened : Db) × (schema : Schema) × (described : Db) × (batches : List
          RecordBatch)
        × (L.open_table name s.db ≡ (ok table, opened))
        × (L.schema table opened ≡ (ok schema, described))
        × (decode_input_to_batches J A input.input_format input.bytes schema
            ≡ ok (batches, r.input_rows))
        × Wrote input table batches r.input_rows r described s'.db
  unfolding upsert_locked
  upsert_locked-Wrote input name r s s' h = after_request _ _ _ _ _ _ _ h λ table s1 opens h1.
      after_request _ _ _ _ _ _ _ h1 λ schema s2 describes h2.
        after_lift _ _ _ _ _ h2 λ (batches, rows) decodes h3.
          let (same, wrote) = write_rows-Wrote input name table batches rows r s2 s' h3 in
          (
            table,
            s1.db,
            schema,
            s2.db,
            batches,
            opens,
            describes,
            rw same decodes,
            subst (λ n. Wrote input table batches n r s2.db s'.db) (sym same) wrote,
          )

  -- A reported success of an upsert: the name is not blank and the payload is not too large; the table of
  -- the trimmed name was opened, and the payload decoded by its schema into the rows that are reported.
  -- Without rows nothing was written; rows without key columns were appended; rows with key columns were
  -- merged, matches updated and the others inserted; the counts reported are those of what was done.
  pub vector_upsert-Upserted :
      (input : LanceDbUpsertInput) (r : LanceDbUpsertResult) (s s' : EngineState Db)
      → vector_upsert J panicked A L options input s ≡ (ok r, s')
      → Upserted input r s.db s'.db
  unfolding vector_upsert
  vector_upsert-Upserted input r s s' h = after_refuse _ _ _ _ _ _ h λ named h1.
      after_refuse _ _ _ _ _ _ h1 λ fits h2. after_permit _ _ _ _ h2 λ s1 same1 h3.
        inside_write _ _ _ _ _ h3 λ s2 t same2 h4 same3.
          let (table, opened, schema, described, batches, opens, describes, decodes, wrote) =
            upsert_locked-Wrote input (trim input.table_name) r s2 t h4 in
          record {
            named = named;
            fits = ground arith;
            table = table;
            opened = opened;
            opens = rw (← same1, ← same2) opens;
            schema = schema;
            described = described;
            describes = describes;
            batches = batches;
            decodes = decodes;
            wrote = rw (← same3) wrote;
          }
