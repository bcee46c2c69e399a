-- ===== src/Service/Messages.antt =====
-- The requests and replies of the gRPC service, as proto/ and the generated code give them. A field that
-- holds an enum is read through its getter already.
use vldb_lancedb.Service.{InputFormat, OutputFormat, ColumnDef}
use vldb_lancedb.Prelude.{String, Bool, ℕ, List}

pub record CreateTableRequest : Type 0 where
  pub table_name : String
  pub columns : List ColumnDef
  pub overwrite_if_exists : Bool

pub record UpsertRequest : Type 0 where
  pub table_name : String
  pub input_format : InputFormat
  pub bytes : List ℕ
  pub key_columns : List String

pub record SearchRequest (F32 : Type 0) : Type 0 where
  pub table_name : String
  pub vector : List F32
  pub limit : ℕ
  pub filter : String
  pub vector_column : String
  pub output_format : OutputFormat

pub record DeleteRequest : Type 0 where
  pub table_name : String
  pub condition : String

pub record DropTableRequest : Type 0 where
  pub table_name : String

pub record CreateTableResponse : Type 0 where
  pub success : Bool
  pub message : String

pub record UpsertResponse : Type 0 where
  pub success : Bool
  pub message : String
  pub version : ℕ
  pub input_rows : ℕ
  pub inserted_rows : ℕ
  pub updated_rows : ℕ
  pub deleted_rows : ℕ

pub record SearchResponse : Type 0 where
  pub success : Bool
  pub message : String
  pub format : String
  pub rows : ℕ
  pub bytes : List ℕ

pub record DeleteResponse : Type 0 where
  pub success : Bool
  pub message : String
  pub version : ℕ
  pub deleted_rows : ℕ

pub record DropTableResponse : Type 0 where
  pub success : Bool
  pub message : String
