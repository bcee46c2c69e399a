-- ===== src/Types.antt =====
-- src/types.rs: the inputs and results of the engine. A `usize`, `u64` or `u32` is a native number,
-- a byte is a number below 256, and `F32` stands for Rust's f32.
use vldb_lancedb.Prelude.{ℕ, String, Bool, List}

pub data LanceDbColumnType : Type 0 where
  unspecified string int64 float64 bool vector_float32 float32 uint64 int32 uint32 :
      LanceDbColumnType

pub record LanceDbColumnDef : Type 0 where
  pub name : String
  pub column_type : LanceDbColumnType
  pub vector_dim : ℕ
  pub nullable : Bool

pub data LanceDbInputFormat : Type 0 where
  unspecified json_rows arrow_ipc : LanceDbInputFormat

pub data LanceDbOutputFormat : Type 0 where
  unspecified arrow_ipc json_rows : LanceDbOutputFormat

unfoldable pub as_wire_name : LanceDbOutputFormat → String
as_wire_name LanceDbOutputFormat.unspecified = "arrow_ipc"
as_wire_name LanceDbOutputFormat.arrow_ipc = "arrow_ipc"
as_wire_name LanceDbOutputFormat.json_rows = "json"

pub record LanceDbCreateTableInput : Type 0 where
  pub table_name : String
  pub columns : List LanceDbColumnDef
  pub overwrite_if_exists : Bool

pub record LanceDbCreateTableResult : Type 0 where
  pub message : String

pub record LanceDbUpsertInput : Type 0 where
  pub table_name : String
  pub input_format : LanceDbInputFormat
  pub bytes : List ℕ
  pub key_columns : List String

pub record LanceDbUpsertResult : Type 0 where
  pub message : String
  pub version : ℕ
  pub input_rows : ℕ
  pub inserted_rows : ℕ
  pub updated_rows : ℕ
  pub deleted_rows : ℕ

pub record LanceDbSearchInput (F32 : Type 0) : Type 0 where
  pub table_name : String
  pub vector : List F32
  pub limit : ℕ
  pub filter : String
  pub vector_column : String
  pub output_format : LanceDbOutputFormat

pub record LanceDbSearchResult : Type 0 where
  pub message : String
  pub format : LanceDbOutputFormat
  pub rows : ℕ
  pub bytes : List ℕ

pub record LanceDbDeleteInput : Type 0 where
  pub table_name : String
  pub condition : String

pub record LanceDbDeleteResult : Type 0 where
  pub message : String
  pub version : ℕ
  pub deleted_rows : ℕ

pub record LanceDbDropTableInput : Type 0 where
  pub table_name : String

pub record LanceDbDropTableResult : Type 0 where
  pub message : String
