-- ===== src/Engine/Ingest/Supported.antt =====
-- Every column that the engine itself creates can be ingested from JSON, up to vectors of 2^31 items.
use mathlib.Core.Path.{subst₂}
use vldb_lancedb.Engine.Ingest.Arrays.{array_type, Marks, append_cells-Marks, append_vectors-Marks}
use vldb_lancedb.Engine.Error.{LanceDbEngineError}
use vldb_lancedb.Engine.Ingest.{build_array_for_field, append_vectors, append_cells}
use vldb_lancedb.Types.{LanceDbColumnType}
use vldb_lancedb.External.Arrow.{Arrow, ArrayRef, validity}
use vldb_lancedb.Prelude.{
  ◌≡◌, String, true, List, Result, ℕ, Bool, ◌<◌, Option, ◌^◌, ok, arith, map, map_ok-eq-ok, is_some,
  map_ok, refl,
}
use vldb_lancedb.Prelude.Int.{u32_as_i32, pos}
use vldb_lancedb.Engine.Schema.{DataType, column_data_type, field}
use vldb_lancedb.External.SerdeJson.{SerdeJson}

-- The types that `column_to_field` gives to a column, and large texts; a vector has a size that fits.
abbrev pub IsSupported : DataType → Type 0
IsSupported (DataType.fixed_size_list child dim) =
    (child ≡ field "item" DataType.float32 true) × ((n : ℕ) × (dim ≡ pos n))
IsSupported (DataType.other text) = ⊥
IsSupported _ = Unit

pub column_data_type-IsSupported :
    (t : LanceDbColumnType) (name : String) (dim : ℕ) (data_type : DataType)
    → dim < 2 ^ 31
    → column_data_type t name dim ≡ ok data_type
    → IsSupported data_type
unfolding column_data_type u32_as_i32
column_data_type-IsSupported t name dim (DataType.fixed_size_list child d) small h =
    (ground arith, (dim, ground arith))
column_data_type-IsSupported t name dim (DataType.other text) small h = ground arith
column_data_type-IsSupported t name dim _ small h = tt

module _ (J : SerdeJson) (A : Arrow J.F32 J.F64) where
  open J use {Value, F32, F64}

  build_array-scalar :
      {B : Type 0} (expect : Value → String → Result B LanceDbEngineError)
      (make : List (Option B) → ArrayRef F32 F64) (data_type : DataType)
      → ((cells : List (Option B)) → array_type (make cells) ≡ data_type)
      → ((cells : List (Option B)) → validity (make cells) ≡ map is_some cells)
      → (rows : List Value) (name : String) (nullable : Bool) (array : ArrayRef F32 F64)
      → map_ok make (append_cells J expect rows name nullable) ≡ ok array
      → (array_type array ≡ data_type) × Marks rows nullable (validity array)
  build_array-scalar expect make data_type typed marked rows name nullable array h =
      let (cells, read, made) =
        map_ok-eq-ok make (append_cells J expect rows name nullable) array h in
      rw (← made)
        (typed cells, rw (marked cells) (append_cells-Marks J expect rows name nullable cells read))

  -- Of a supported type, an array that is built has that type, one row for each JSON row, and no null
  -- unless the column is nullable.
  pub build_array_for_field-Marks :
      (rows : List Value) (name : String) (data_type : DataType) (nullable : Bool)
      (array : ArrayRef F32 F64)
      → IsSupported data_type
      → build_array_for_field J A rows name data_type nullable ≡ ok array
      → (array_type array ≡ data_type) × Marks rows nullable (validity array)
  unfolding build_array_for_field
  build_array_for_field-Marks rows name DataType.utf8 nullable array s h =
      build_array-scalar _ ArrayRef.utf8 _ (λ c. refl) (λ c. refl) rows name nullable array h
  build_array_for_field-Marks rows name DataType.large_utf8 nullable array s h =
      build_array-scalar _ ArrayRef.large_utf8 _ (λ c. refl) (λ c. refl) rows name nullable array h
  build_array_for_field-Marks rows name DataType.int64 nullable array s h =
      build_array-scalar _ ArrayRef.int64 _ (λ c. refl) (λ c. refl) rows name nullable array h
  build_array_for_field-Marks rows name DataType.int32 nullable array s h =
      build_array-scalar _ ArrayRef.int32 _ (λ c. refl) (λ c. refl) rows name nullable array h
  build_array_for_field-Marks rows name DataType.uint64 nullable array s h =
      build_array-scalar _ ArrayRef.uint64 _ (λ c. refl) (λ c. refl) rows name nullable array h
  build_array_for_field-Marks rows name DataType.uint32 nullable array s h =
      build_array-scalar _ ArrayRef.uint32 _ (λ c. refl) (λ c. refl) rows name nullable array h
  build_array_for_field-Marks rows name DataType.float64 nullable array s h =
      build_array-scalar _ ArrayRef.float64 _ (λ c. refl) (λ c. refl) rows name nullable array h
  build_array_for_field-Marks rows name DataType.float32 nullable array s h =
      build_array-scalar _ ArrayRef.float32 _ (λ c. refl) (λ c. refl) rows name nullable array h
  build_array_for_field-Marks rows name DataType.boolean nullable array s h =
      build_array-scalar _ ArrayRef.boolean _ (λ c. refl) (λ c. refl) rows name nullable array h
  build_array_for_field-Marks rows name (DataType.fixed_size_list child dim) nullable array
        (item, (n, size)) h =
      let h1 =
        subst₂
          (λ c d.
            build_array_for_field J A rows name (DataType.fixed_size_list c d) nullable ≡ ok array)
          item size h in
      let ((items, marks), read, made) =
        map_ok-eq-ok _ (append_vectors J rows name nullable (pos n)) array h1 in
      rw (← made, item, size)
        (refl, (append_vectors-Marks J rows name nullable n items marks read).0)
  build_array_for_field-Marks rows name (DataType.other text) nullable array s h = absurd s
