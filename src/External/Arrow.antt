-- ===== src/External/Arrow.antt =====
-- The crates arrow_array and arrow_ipc, as far as src/engine.rs calls them. An array is represented by
-- what its builder was given: the appended values, `none` for an appended null. A vector column has one
-- flat list of child values and a mark for each row. `opaque` stands for any other array, by its type.
use vldb_lancedb.Prelude.{ℕ, String, Bool, List, Option, Result, map, is_some}
use vldb_lancedb.Prelude.Int.{ℤ}
use vldb_lancedb.Engine.Schema.{DataType, Schema}

pub data ArrayRef (F32 F64 : Type 0) : Type 0 where
  utf8 large_utf8 : List (Option String) → ArrayRef F32 F64
  int64 int32 : List (Option ℤ) → ArrayRef F32 F64
  uint64 uint32 : List (Option ℕ) → ArrayRef F32 F64
  float64 : List (Option F64) → ArrayRef F32 F64
  float32 : List (Option F32) → ArrayRef F32 F64
  boolean : List (Option Bool) → ArrayRef F32 F64
  fixed_size_list : ℤ → List (Option F32) → List Bool → ArrayRef F32 F64
  opaque : DataType → List Bool → ArrayRef F32 F64

-- The number of rows, and which of them are not null.
abbrev pub validity : {F32 F64 : Type 0} → ArrayRef F32 F64 → List Bool
validity (ArrayRef.utf8 cells) = map is_some cells
validity (ArrayRef.large_utf8 cells) = map is_some cells
validity (ArrayRef.int64 cells) = map is_some cells
validity (ArrayRef.int32 cells) = map is_some cells
validity (ArrayRef.uint64 cells) = map is_some cells
validity (ArrayRef.uint32 cells) = map is_some cells
validity (ArrayRef.float64 cells) = map is_some cells
validity (ArrayRef.float32 cells) = map is_some cells
validity (ArrayRef.boolean cells) = map is_some cells
validity (ArrayRef.fixed_size_list dim items marks) = marks
validity (ArrayRef.opaque data_type marks) = marks

-- Record batches and the IPC stream. `read_stream` is the reader over all the bytes: the error of
-- opening it, or what its iterator yields. An error is given by the text that it displays.
pub record Arrow (F32 F64 : Type 0) : Type 1 where
  pub RecordBatch : Type 0
  pub try_new : Schema → List (ArrayRef F32 F64) → Result RecordBatch String
  pub num_rows : RecordBatch → ℕ
  pub columns : RecordBatch → List (ArrayRef F32 F64)
  pub read_stream : List ℕ → Result (List (Result RecordBatch String)) String
  pub Writer : Type 0
  pub new_writer : Schema → Result Writer String
  pub write : Writer → RecordBatch → Result Writer String
  pub finish : Writer → Result Writer String
  pub into_inner : Writer → Result (List ℕ) String
  -- Arrow's Debug text of a type
  pub debug : DataType → String
