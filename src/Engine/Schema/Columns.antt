-- ===== src/Engine/Schema/Columns.antt =====
-- Which column definitions make a schema, and the fields that they make.
use vldb_lancedb.Prelude.{
  ◌≡◌, ◌≢◌, refl, ap, sym, true, false, ◌↔◌, List, [], ◌∷◌, map, ok, err, >>=-eq-ok, All, arith,
  ◌<◌, ◌^◌,
}
use vldb_lancedb.Prelude.Int.{u32_as_i32, ℤ, i32_as_usize, i32_as_usize-u32_as_i32_iff}
use vldb_lancedb.Text.{trim, is_empty}
use vldb_lancedb.Types.{LanceDbColumnType, LanceDbColumnDef}
use vldb_lancedb.Engine.Error.{LanceDbEngineError, invalid_argument}
use vldb_lancedb.Engine.Schema.{
  DataType, utf8, int64, int32, uint64, uint32, float64, float32, boolean, fixed_size_list, Field,
  field, column_to_field, checked_field, build_arrow_schema, Schema, column_data_type,
}

-- The Arrow type of a column that passes the checks, stated without the checks.
abbrev pub arrow_type : LanceDbColumnDef → DataType
arrow_type column = elim column.column_type [
  | LanceDbColumnType.string ↦ utf8
  | LanceDbColumnType.int64 ↦ int64
  | LanceDbColumnType.float64 ↦ float64
  | LanceDbColumnType.bool ↦ boolean
  | LanceDbColumnType.float32 ↦ float32
  | LanceDbColumnType.uint64 ↦ uint64
  | LanceDbColumnType.int32 ↦ int32
  | LanceDbColumnType.uint32 ↦ uint32
  | LanceDbColumnType.vector_float32 ↦
      fixed_size_list (field "item" float32 true) (u32_as_i32 column.vector_dim)
  | LanceDbColumnType.unspecified ↦ utf8
]

abbrev pub arrow_field : LanceDbColumnDef → Field
arrow_field column = field column.name (arrow_type column) column.nullable

-- A named column with a type, and with a size if it is a vector.
pub record IsColumn (column : LanceDbColumnDef) : Type 0 where
  pub named : is_empty (trim column.name) ≡ false
  pub typed : column.column_type ≢ LanceDbColumnType.unspecified
  pub sized : column.column_type ≡ LanceDbColumnType.vector_float32 → column.vector_dim ≢ 0

checked_field_iff :
    (column : LanceDbColumnDef) (f : Field)
    → (checked_field column ≡ ok f) ↔ (IsColumn column × (f ≡ arrow_field column))
unfolding checked_field column_to_field
checked_field_iff column f = ground arith

checked_field-err :
    (column : LanceDbColumnDef) (e : LanceDbEngineError)
    → checked_field column ≡ err e
    → e.kind ≡ invalid_argument
unfolding checked_field column_to_field
checked_field-err column e h = ground arith

-- A schema is built exactly when every column has a name that is not blank, a type other than
-- `unspecified`, and a positive size if it is a vector; then its fields are those of the columns, in
-- their order, with the names and the nullability that the columns give.
pub build_arrow_schema_iff :
    (columns : List LanceDbColumnDef) (schema : Schema)
    → (build_arrow_schema columns ≡ ok schema)
      ↔ (All IsColumn columns × (schema ≡ map arrow_field columns))
unfolding build_arrow_schema
build_arrow_schema_iff [] schema = ground arith
build_arrow_schema_iff (column ∷ columns) schema = (
  λ h.
      let (f, first, h') = >>=-eq-ok (checked_field column) _ h in
      let (fs, later, last) = >>=-eq-ok (build_arrow_schema columns) _ h' in
      let (valid, same) = (checked_field_iff column f).0 first in
      let (valids, sames) = (build_arrow_schema_iff columns fs).0 later in ((valid, valids), cc),
  λ ((valid, valids), same).
      rw
        (
          (checked_field_iff column (arrow_field column)).1 (valid, refl),
          (build_arrow_schema_iff columns (map arrow_field columns)).1 (valids, refl),
        )
        (ap ok (sym same)),
)

-- Every refusal of a list of columns is an invalid argument, never an internal error.
pub build_arrow_schema-err :
    (columns : List LanceDbColumnDef) (e : LanceDbEngineError)
    → build_arrow_schema columns ≡ err e
    → e.kind ≡ invalid_argument
unfolding build_arrow_schema
build_arrow_schema-err [] e h = cc
build_arrow_schema-err (column ∷ columns) e h =
    ground (arith, checked_field-err column e, build_arrow_schema-err columns e)

-- The field of a nonempty vector column whose size has 32 bits is a list of a fixed size, and this
-- size is the column's, in the reading that the program makes of it, exactly below 2^31.
pub column_to_field-vector :
    (column : LanceDbColumnDef)
    → column.column_type ≡ LanceDbColumnType.vector_float32
    → column.vector_dim ≢ 0
    → column.vector_dim < 2 ^ 32
    → (dim : ℤ) × (column_to_field column
        ≡ ok (field column.name (fixed_size_list (field "item" float32 true) dim) column.nullable))
      × ((i32_as_usize dim ≡ column.vector_dim) ↔ (column.vector_dim < 2 ^ 31))
unfolding column_to_field column_data_type
column_to_field-vector column typed sized h =
    (u32_as_i32 column.vector_dim, ground arith, i32_as_usize-u32_as_i32_iff column.vector_dim h)
