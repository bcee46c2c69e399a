-- ===== src/External/Lance.antt =====
-- The crate lancedb, as far as src/engine.rs calls it: a connection, its tables, and queries. `Db` is all
-- that a call can change. An error is given by the text that it displays.
use vldb_lancedb.Prelude.{ℕ, String, Bool, List, Option, Result}
use vldb_lancedb.Engine.Schema.{Schema}

pub data CreateTableMode : Type 0 where
  create overwrite : CreateTableMode

pub data AddDataMode : Type 0 where
  append : AddDataMode

-- What `merge_insert` and the two calls on its builder set; the update has no condition.
pub record MergeInsert : Type 0 where
  pub keys : List String
  pub when_matched_update_all : Bool
  pub when_not_matched_insert_all : Bool

pub record MergeResult : Type 0 where
  pub version : ℕ
  pub num_inserted_rows : ℕ
  pub num_updated_rows : ℕ
  pub num_deleted_rows : ℕ

pub record DeleteResult : Type 0 where
  pub version : ℕ
  pub num_deleted_rows : ℕ

-- What the calls on the query builder set
pub record VectorQuery (F32 : Type 0) : Type 0 where
  pub nearest_to : List F32
  pub column : Option String
  pub limit : Option ℕ
  pub only_if : Option String

pub record Lance (F32 RecordBatch : Type 0) : Type 1 where
  pub Db : Type 0
  pub Table : Type 0
  pub Stream : Type 0
  pub create_empty_table : String → Schema → CreateTableMode → Db → Result (Unit {0}) String × Db
  pub drop_table : String → Db → Result (Unit {0}) String × Db
  pub open_table : String → Db → Result Table String × Db
  pub schema : Table → Db → Result Schema String × Db
  pub version : Table → Db → Result ℕ String × Db
  pub add : Table → AddDataMode → Schema → List RecordBatch → Db → Result (Unit {0}) String × Db
  pub merge_insert :
      Table → MergeInsert → Schema → List RecordBatch → Db → Result MergeResult String × Db
  pub delete : Table → String → Db → Result DeleteResult String × Db
  pub nearest_to : Table → List F32 → Result (Unit {0}) String
  pub output_schema : Table → VectorQuery F32 → Db → Result Schema String × Db
  pub execute : Table → VectorQuery F32 → Db → Result Stream String × Db
  pub try_collect : Stream → Db → Result (List RecordBatch) String × Db
