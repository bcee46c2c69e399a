-- ===== src/Engine/Ingest/Arrays.antt =====
-- What `build_array_for_field` builds: a row for each JSON row, no null in a column that is not
-- nullable, and the type that a column of the engine's own schemas has.
use vldb_lancedb.Engine.Ingest.Cells.{append_cells_iff, AreCells-length, AreCells-not_nullable}
use vldb_lancedb.Engine.Error.{LanceDbEngineError}
use vldb_lancedb.Prelude.Int.{i32_as_usize, pos}
use vldb_lancedb.Engine.Schema.{DataType, field}
use vldb_lancedb.Engine.Ingest.{
  extract_field_value, append_vectors, vector_items, append_cells, expect_f32,
}
use vldb_lancedb.External.Arrow.{ArrayRef}
use vldb_lancedb.Prelude.{
  List, Option, Bool, String, Result, length, false, ℕ, All, is_some, ◌≡◌, ◌≢◌, true, ok, map, ◌∷◌,
  none, ◌*◌, [], some, length-map, arith, ◌∙◌, >>=-eq-ok, length-replicate, ok_or, Bool-cases, ◌==◌,
  inl, map_ok-eq-ok, collect, collect-length, inr, refl, length-append,
}
use vldb_lancedb.External.SerdeJson.{SerdeJson}

-- The type that the builder of an array gives it. The builder of vectors names its child "item".
abbrev pub array_type : {F32 F64 : Type 0} → ArrayRef F32 F64 → DataType
array_type (ArrayRef.utf8 cells) = DataType.utf8
array_type (ArrayRef.large_utf8 cells) = DataType.large_utf8
array_type (ArrayRef.int64 cells) = DataType.int64
array_type (ArrayRef.int32 cells) = DataType.int32
array_type (ArrayRef.uint64 cells) = DataType.uint64
array_type (ArrayRef.uint32 cells) = DataType.uint32
array_type (ArrayRef.float64 cells) = DataType.float64
array_type (ArrayRef.float32 cells) = DataType.float32
array_type (ArrayRef.boolean cells) = DataType.boolean
array_type (ArrayRef.fixed_size_list dim items marks) =
    DataType.fixed_size_list (field "item" DataType.float32 true) dim
array_type (ArrayRef.opaque data_type marks) = data_type

-- One mark for each row, and all of them set unless the column is nullable.
abbrev pub Marks {ℓ} : {V : Type ℓ} → List V → Bool → List Bool → Type 0
Marks rows nullable marks =
    (length marks ≡ length rows) × (nullable ≡ false → All (λ mark. mark ≡ true) marks)

All-map-is_some {ℓ} :
    {A : Type ℓ} (cells : List (Option A))
    → All (λ cell. is_some cell ≡ true) cells
    → All (λ mark. mark ≡ true) (map is_some cells)
All-map-is_some [] h = tt
All-map-is_some (cell ∷ cells) h = (h.0, All-map-is_some cells h.1)

module _ (J : SerdeJson) where
  open J use {Value, F32, F64}

  pub append_cells-Marks :
      {A : Type 0} (expect : Value → String → Result A LanceDbEngineError) (rows : List Value)
      (name : String) (nullable : Bool) (cells : List (Option A))
      → append_cells J expect rows name nullable ≡ ok cells
      → Marks rows nullable (map is_some cells)
  append_cells-Marks expect rows name nullable cells h =
      let are = (append_cells_iff J expect rows name nullable cells).0 h in
      (
        length-map is_some cells ∙ AreCells-length J expect rows name nullable cells are,
        λ e. All-map-is_some cells (AreCells-not_nullable J expect rows name cells (rw e at are)),
      )

  extract_field_value-not_nullable :
      (row : Value) (name : String) → extract_field_value J row name false ≢ ok none
  unfolding extract_field_value
  extract_field_value-not_nullable row name = ground arith

  -- A vector column also has `dim` child values for each row.
  vector_items-length :
      (found : Option Value) (name : String) (dim : ℕ) (items : List (Option F32)) (mark : Bool)
      → vector_items J found name (pos dim) ≡ ok (items, mark)
      → (length items ≡ dim) × (found ≢ none → mark ≡ true)
  unfolding vector_items i32_as_usize
  vector_items-length none name dim items mark h =
      let null : Option F32 = none in
      (ground (arith, length-replicate dim null), λ ne. absurd (ne refl))
  vector_items-length (some value) name dim items mark h =
      let (array, is_array, h1) = >>=-eq-ok (ok_or (J.as_array value) _) _ h in
      elim (Bool-cases (length array == dim)) [
        | inl e ↦
            let (floats, read, pair) =
              map_ok-eq-ok _ (collect (λ item. expect_f32 J item name) array) _ (rw e at h1) in
            (
              ground (
                arith,
                length-map {B = Option F32} some floats,
                collect-length (λ item. expect_f32 J item name) array floats read,
              ),
              λ _. cc,
            )
        | inr e ↦ absurd (let h2 = rw e at h1 in cc)
      ]

  pub append_vectors-Marks :
      (rows : List Value) (name : String) (nullable : Bool) (dim : ℕ) (items : List (Option F32))
      (marks : List Bool)
      → append_vectors J rows name nullable (pos dim) ≡ ok (items, marks)
      → Marks rows nullable marks × (length items ≡ length rows * dim)
  unfolding append_vectors
  append_vectors-Marks [] name nullable dim items marks h = ground arith
  append_vectors-Marks (row ∷ rows) name nullable dim items marks h =
      let (found, extracted, h1) = >>=-eq-ok (extract_field_value J row name nullable) _ h in
      let ((items1, mark), first, h2) = >>=-eq-ok (vector_items J found name (pos dim)) _ h1 in
      let ((items2, marks2), later, h3) =
        >>=-eq-ok (append_vectors J rows name nullable (pos dim)) _ h2 in
      let (len1, solid) = vector_items-length found name dim items1 mark first in
      let ((len2, all2), total) = append_vectors-Marks rows name nullable dim items2 marks2 later in
      (
        (ground arith, λ e. ground (arith, all2 e, extract_field_value-not_nullable row name)),
        grind (arith, length-append items1 items2),
      )
