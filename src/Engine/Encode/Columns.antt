-- ===== src/Engine/Encode/Columns.antt =====
-- JSON rows through an Arrow column and back: outside the floating-point types nothing is lost.
use mathlib.Core.Option.{some-injective}
use vldb_lancedb.Engine.Ingest.{
  append_cells, build_array_for_field, expect_string, expect_i32, expect_u64, expect_i64,
  expect_u32, expect_bool,
}
use vldb_lancedb.External.Arrow.{ArrayRef, Arrow}
use vldb_lancedb.Engine.Encode.{scalar_value, json_value_from_array}
use vldb_lancedb.Engine.Ingest.Cells.{IsAbsent, IsCell, AreCells, append_cells_iff}
use vldb_lancedb.Engine.Error.{LanceDbEngineError}
use vldb_lancedb.Prelude.{
  ℕ, String, Option, ◌≡◌, some, Result, arith, none, inl, ok, List, inr, Bool, map_ok, get_elem?,
  map_ok-eq-ok, ◌∷◌, ◌∙◌, suc, [], zero, ap, sym, ok_or-eq-ok, refl, >>=-eq-ok, ok_or,
}
use vldb_lancedb.Prelude.Int.{to_i32, to_u32, ℤ, pos, negsuc}
use vldb_lancedb.External.SerdeJson.{SerdeJson, SerdeJsonLaws}
use vldb_lancedb.Engine.Schema.{DataType}

-- The types whose values survive the way through a column exactly.
abbrev pub IsExact : DataType → Type 0
IsExact DataType.float64 = ⊥
IsExact DataType.float32 = ⊥
IsExact (DataType.fixed_size_list child dim) = ⊥
IsExact (DataType.other text) = ⊥
IsExact _ = Unit

to_i32_same : (z z' : ℤ) → to_i32 z ≡ some z' → z ≡ z'
unfolding to_i32
to_i32_same (pos n) z' h = ground arith
to_i32_same (negsuc n) z' h = ground arith

to_u32_same : (n n' : ℕ) → to_u32 n ≡ some n' → n ≡ n'
unfolding to_u32
to_u32_same n n' h = ground arith

module _ (J : SerdeJson) where
  open J use {Value, null}

  abbrev or_null : Option Value → Value
  or_null none = null
  or_null (some v) = v

  abbrev object_field : Option J.Object → String → Value
  object_field none name = null
  object_field (some object) name = or_null (J.get object name)

  -- What a row says of a field: its value, or null where the key is missing.
  abbrev pub field_or_null : Value → String → Value
  field_or_null row name = object_field (J.as_object row) name

  module _ (laws : SerdeJsonLaws J) (panicked : LanceDbEngineError) where
    IsAbsent-null :
        (object : J.Object) (name : String)
        → IsAbsent J object name
        → or_null (J.get object name) ≡ null
    IsAbsent-null object name (inl e) = rw e
    IsAbsent-null object name (inr (v, e, h)) = rw e (laws.null_only v h)

    module _ {A : Type 0} (expect : Value → String → Result A LanceDbEngineError) (of : A → Value)
        (echoes : (v : Value) (name : String) (a : A) → expect v name ≡ ok a → v ≡ of a) where
      cell_echo :
          (row : Value) (name : String) (nullable : Bool) (cell : Option A)
          → IsCell J expect row name nullable cell
          → scalar_value J panicked of (some cell) ≡ ok (field_or_null row name)
      unfolding scalar_value
      cell_echo row name nullable none (object, e, may, absent) =
          rw (e, IsAbsent-null object name absent)
      cell_echo row name nullable (some a) (object, e, (v, got, solid, read)) =
          rw (e, got, echoes v name a read)

      cells_echo :
          (rows : List Value) (name : String) (nullable : Bool) (cells : List (Option A)) (i : ℕ)
          (row : Value)
          → AreCells J expect rows name nullable cells
          → get_elem? rows i ≡ some row
          → scalar_value J panicked of (get_elem? cells i) ≡ ok (field_or_null row name)
      cells_echo [] name nullable cells i row h e = cc
      cells_echo (r ∷ rows) name nullable [] i row h e = absurd h
      cells_echo (r ∷ rows) name nullable (cell ∷ cells) zero row h e =
          cell_echo r name nullable cell h.0
          ∙ ap (λ r'. ok (field_or_null r' name)) (some-injective r row e)
      cells_echo (r ∷ rows) name nullable (cell ∷ cells) (suc i) row h e =
          cells_echo rows name nullable cells i row h.1 e

      column_echo :
          (make : List (Option A) → ArrayRef J.F32 J.F64) (rows : List Value) (name : String)
          (nullable : Bool) (array : ArrayRef J.F32 J.F64)
          → map_ok make (append_cells J expect rows name nullable) ≡ ok array
          → (cells : List (Option A)) × (make cells ≡ array)
            × ((i : ℕ) (row : Value)
                → get_elem? rows i ≡ some row
                → scalar_value J panicked of (get_elem? cells i) ≡ ok (field_or_null row name))
      column_echo make rows name nullable array h =
          let (cells, read, made) =
            map_ok-eq-ok make (append_cells J expect rows name nullable) array h in
          let are = (append_cells_iff J expect rows name nullable cells).0 read in
          (cells, made, λ i row. cells_echo rows name nullable cells i row are)

  module _ (laws : SerdeJsonLaws J) where
    string_echo : (v : Value) (name s : String) → expect_string J v name ≡ ok s → v ≡ J.of_string s
    unfolding expect_string
    string_echo v name s h = laws.str_only v s (ok_or-eq-ok _ _ s h)

    i64_echo : (v : Value) (name : String) (z : ℤ) → expect_i64 J v name ≡ ok z → v ≡ J.of_i64 z
    unfolding expect_i64
    i64_echo v name z h = laws.i64_only v z (ok_or-eq-ok _ _ z h)

    i32_echo : (v : Value) (name : String) (z : ℤ) → expect_i32 J v name ≡ ok z → v ≡ J.of_i64 z
    unfolding expect_i32
    i32_echo v name z h =
        let (raw, read, h1) = >>=-eq-ok (ok_or (J.as_i64 v) _) _ h in
        let same = to_i32_same raw z (ok_or-eq-ok (to_i32 raw) _ z h1) in
        laws.i64_only v raw (ok_or-eq-ok _ _ raw read) ∙ ap J.of_i64 same

    u64_echo : (v : Value) (name : String) (n : ℕ) → expect_u64 J v name ≡ ok n → v ≡ J.of_u64 n
    unfolding expect_u64
    u64_echo v name n h = laws.u64_only v n (ok_or-eq-ok _ _ n h)

    u32_echo : (v : Value) (name : String) (n : ℕ) → expect_u32 J v name ≡ ok n → v ≡ J.of_u64 n
    unfolding expect_u32
    u32_echo v name n h =
        let (raw, read, h1) = >>=-eq-ok (ok_or (J.as_u64 v) _) _ h in
        let same = to_u32_same raw n (ok_or-eq-ok (to_u32 raw) _ n h1) in
        laws.u64_only v raw (ok_or-eq-ok _ _ raw read) ∙ ap J.of_u64 same

    bool_echo :
        (v : Value) (name : String) (b : Bool) → expect_bool J v name ≡ ok b → v ≡ J.of_bool b
    unfolding expect_bool
    bool_echo v name b h = laws.bool_only v b (ok_or-eq-ok _ _ b h)

  module _ (laws : SerdeJsonLaws J) (panicked : LanceDbEngineError) (A : Arrow J.F32 J.F64) where
    exact_column :
        {B : Type 0} (expect : Value → String → Result B LanceDbEngineError) (of : B → Value)
        (make : List (Option B) → ArrayRef J.F32 J.F64)
        → ((v : Value) (name : String) (b : B) → expect v name ≡ ok b → v ≡ of b)
        → ((cells : List (Option B)) (i : ℕ)
            → json_value_from_array J panicked A (make cells) i
              ≡ scalar_value J panicked of (get_elem? cells i))
        → (rows : List Value) (name : String) (nullable : Bool) (array : ArrayRef J.F32 J.F64)
          (i : ℕ) (row : Value)
        → map_ok make (append_cells J expect rows name nullable) ≡ ok array
        → get_elem? rows i ≡ some row
        → json_value_from_array J panicked A array i ≡ ok (field_or_null row name)
    exact_column expect of make echoes reads rows name nullable array i row h e =
        let (cells, made, echo) =
          column_echo laws panicked expect of echoes make rows name nullable array h in
        ap (λ a. json_value_from_array J panicked A a i) (sym made) ∙ reads cells i ∙ echo i row e

    -- Of a column of texts, booleans or integers, the value written for a row is the value that the row
    -- gave, and null where the row had null or no such key.
    pub json_value_from_array-build_array :
        (rows : List Value) (name : String) (data_type : DataType) (nullable : Bool)
        (array : ArrayRef J.F32 J.F64) (i : ℕ) (row : Value)
        → IsExact data_type
        → build_array_for_field J A rows name data_type nullable ≡ ok array
        → get_elem? rows i ≡ some row
        → json_value_from_array J panicked A array i ≡ ok (field_or_null row name)
    unfolding build_array_for_field json_value_from_array
    json_value_from_array-build_array rows name DataType.utf8 nullable array i row x =
        exact_column (expect_string J) J.of_string ArrayRef.utf8 (string_echo laws)
          (λ cells i. refl) rows name nullable array i row
    json_value_from_array-build_array rows name DataType.large_utf8 nullable array i row x =
        exact_column (expect_string J) J.of_string ArrayRef.large_utf8 (string_echo laws)
          (λ cells i. refl) rows name nullable array i row
    json_value_from_array-build_array rows name DataType.int64 nullable array i row x =
        exact_column (expect_i64 J) J.of_i64 ArrayRef.int64 (i64_echo laws) (λ cells i. refl) rows
          name nullable array i row
    json_value_from_array-build_array rows name DataType.int32 nullable array i row x =
        exact_column (expect_i32 J) J.of_i64 ArrayRef.int32 (i32_echo laws) (λ cells i. refl) rows
          name nullable array i row
    json_value_from_array-build_array rows name DataType.uint64 nullable array i row x =
        exact_column (expect_u64 J) J.of_u64 ArrayRef.uint64 (u64_echo laws) (λ cells i. refl) rows
          name nullable array i row
    json_value_from_array-build_array rows name DataType.uint32 nullable array i row x =
        exact_column (expect_u32 J) J.of_u64 ArrayRef.uint32 (u32_echo laws) (λ cells i. refl) rows
          name nullable array i row
    json_value_from_array-build_array rows name DataType.boolean nullable array i row x =
        exact_column (expect_bool J) J.of_bool ArrayRef.boolean (bool_echo laws) (λ cells i. refl)
          rows name nullable array i row
    json_value_from_array-build_array rows name DataType.float64 nullable array i row x = absurd x
    json_value_from_array-build_array rows name DataType.float32 nullable array i row x = absurd x
    json_value_from_array-build_array rows name (DataType.fixed_size_list child dim) nullable array
          i row x =
        absurd x
    json_value_from_array-build_array rows name (DataType.other text) nullable array i row x =
        absurd x
