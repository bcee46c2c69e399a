-- ===== src/Engine/Ingest/Cells.antt =====
-- What a cell of a JSON row may hold, as a relation that is independent of the loop.
use vldb_lancedb.Prelude.{
  ℕ, String, ◌≡◌, refl, ap, Bool, true, false, ◌↔◌, ◌⊎◌, inl, inr, List, [], ◌∷◌, length, Option,
  none, some, is_some, Result, ok, err, >>=-eq-ok, All, arith, Option-cases,
}
use vldb_lancedb.External.SerdeJson.{SerdeJson}
use vldb_lancedb.Engine.Error.{LanceDbEngineError, invalid_argument}
use vldb_lancedb.Engine.Ingest.{
  nullable_value, extract_field_value, expect_found, read_cell, append_cells,
}

-- Every error that a function of a value and a field's name gives is an invalid argument.
abbrev pub BlamesInput : {V A : Type 0} → (V → String → Result A LanceDbEngineError) → Type 0
BlamesInput {V} expect =
    (v : V) (name : String) (e : LanceDbEngineError)
    → expect v name ≡ err e
    → e.kind ≡ invalid_argument

module _ (J : SerdeJson) where
  open J use {Value, is_null, as_object}

  -- The object of the row has no such key, or has null under it.
  abbrev pub IsAbsent : J.Object → String → Type 0
  IsAbsent object name =
      (J.get object name ≡ none) ⊎ ((v : Value) × (J.get object name ≡ some v) × (is_null v ≡ true))

  nullable_value-none :
      (found : Option Value) (name : String) (nullable : Bool)
      → nullable_value J found name nullable ≡ ok none
      → (nullable ≡ true) × ((found ≡ none) ⊎ ((v : Value) × (found ≡ some v) × (is_null v ≡ true)))
  unfolding nullable_value
  nullable_value-none none name nullable h = (ground arith, inl refl)
  nullable_value-none (some v) name nullable h = (ground arith, inr (v, refl, ground arith))

  nullable_value-some :
      (found : Option Value) (name : String) (nullable : Bool) (v : Value)
      → nullable_value J found name nullable ≡ ok (some v)
      → (found ≡ some v) × (is_null v ≡ false)
  unfolding nullable_value
  nullable_value-some none name nullable v h = ground arith
  nullable_value-some (some w) name nullable v h = ground arith

  extract_field_value-eq-ok :
      (row : Value) (name : String) (nullable : Bool) (found : Option Value)
      → extract_field_value J row name nullable ≡ ok found
      → (object : J.Object) × (as_object row ≡ some object)
        × (nullable_value J (J.get object name) name nullable ≡ ok found)
  unfolding extract_field_value
  extract_field_value-eq-ok row name nullable found h = elim (Option-cases (as_object row)) [
    | inl e ↦ absurd (let h' = rw e at h in cc)
    | inr (object, e) ↦ (object, e, rw e at h)
  ]

  module _ {A : Type 0} (expect : Value → String → Result A LanceDbEngineError) where
    -- The row is an object; a null cell stands for an absent value of a nullable column, and a value
    -- is what `expect` reads from a value that is not null.
    abbrev pub IsCell : Value → String → Bool → Option A → Type 0
    IsCell row name nullable none =
        (object : J.Object) × (as_object row ≡ some object)
        × (nullable ≡ true)
        × IsAbsent object name
    IsCell row name nullable (some a) =
        (object : J.Object) × (as_object row ≡ some object)
        × ((v : Value) × (J.get object name ≡ some v)
            × (is_null v ≡ false)
            × (expect v name ≡ ok a))

    abbrev pub AreCells : List Value → String → Bool → List (Option A) → Type 0
    AreCells [] name nullable [] = Unit
    AreCells [] name nullable (cell ∷ cells) = ⊥
    AreCells (row ∷ rows) name nullable [] = ⊥
    AreCells (row ∷ rows) name nullable (cell ∷ cells) =
        IsCell row name nullable cell × AreCells rows name nullable cells

    expect_found_sound :
        (row : Value) (name : String) (nullable : Bool) (found : Option Value) (cell : Option A)
        (object : J.Object)
        → as_object row ≡ some object
        → nullable_value J (J.get object name) name nullable ≡ ok found
        → expect_found J expect found name ≡ ok cell
        → IsCell row name nullable cell
    unfolding expect_found
    expect_found_sound row name nullable none none object e h k =
        let (may, absent) = nullable_value-none (J.get object name) name nullable h in
        (object, e, may, absent)
    expect_found_sound row name nullable none (some a) object e h k = cc
    expect_found_sound row name nullable (some v) none object e h k =
        let (a, _, k') = >>=-eq-ok (expect v name) _ k in cc
    expect_found_sound row name nullable (some v) (some a) object e h k =
        let (got, solid) = nullable_value-some (J.get object name) name nullable v h in
        let (a', read, k') = >>=-eq-ok (expect v name) _ k in
        (object, e, (v, got, solid, ground arith))

    read_cell_sound :
        (row : Value) (name : String) (nullable : Bool) (cell : Option A)
        → read_cell J expect row name nullable ≡ ok cell
        → IsCell row name nullable cell
    unfolding read_cell
    read_cell_sound row name nullable cell h =
        let (found, extracted, h') = >>=-eq-ok (extract_field_value J row name nullable) _ h in
        let (object, is_object, h'') =
          extract_field_value-eq-ok row name nullable found extracted in
        expect_found_sound row name nullable found cell object is_object h'' h'

    read_cell_complete :
        (row : Value) (name : String) (nullable : Bool) (cell : Option A)
        → IsCell row name nullable cell
        → read_cell J expect row name nullable ≡ ok cell
    unfolding read_cell extract_field_value
    read_cell_complete row name nullable none h = ground arith
    read_cell_complete row name nullable (some a) h = ground arith

    read_cell-err :
        BlamesInput expect
        → (row : Value) (name : String) (nullable : Bool) (e : LanceDbEngineError)
        → read_cell J expect row name nullable ≡ err e
        → e.kind ≡ invalid_argument
    unfolding read_cell extract_field_value
    read_cell-err blame row name nullable e h = grind (arith, blame)

    -- The loop reads a column exactly when every row has a cell for it, and it appends those cells in
    -- the order of the rows.
    pub append_cells_iff :
        (rows : List Value) (name : String) (nullable : Bool) (cells : List (Option A))
        → (append_cells J expect rows name nullable ≡ ok cells) ↔ AreCells rows name nullable cells
    unfolding append_cells
    append_cells_iff [] name nullable [] = (λ _. tt, λ _. refl)
    append_cells_iff [] name nullable (cell ∷ cells) = (λ h. cc, λ h. absurd h)
    append_cells_iff (row ∷ rows) name nullable [] = (
      λ h.
          let (cell, _, h') = >>=-eq-ok (read_cell J expect row name nullable) _ h in
          let (rest, _, h'') = >>=-eq-ok (append_cells J expect rows name nullable) _ h' in cc,
      λ h. absurd h,
    )
    append_cells_iff (row ∷ rows) name nullable (cell ∷ cells) = (
      λ h.
          let (cell', first, h') = >>=-eq-ok (read_cell J expect row name nullable) _ h in
          let (rest, later, h'') = >>=-eq-ok (append_cells J expect rows name nullable) _ h' in
          (
            read_cell_sound row name nullable cell (ground arith),
            (append_cells_iff rows name nullable cells).0 (ground arith),
          ),
      λ (here, later). rw (
        read_cell_complete row name nullable cell here,
        (append_cells_iff rows name nullable cells).1 later,
      ),
    )

    pub append_cells-err :
        BlamesInput expect
        → (rows : List Value) (name : String) (nullable : Bool) (e : LanceDbEngineError)
        → append_cells J expect rows name nullable ≡ err e
        → e.kind ≡ invalid_argument
    unfolding append_cells
    append_cells-err blame [] name nullable e h = cc
    append_cells-err blame (row ∷ rows) name nullable e h = ground (
      arith,
      read_cell-err blame row name nullable e,
      append_cells-err blame rows name nullable e,
    )

    pub AreCells-length :
        (rows : List Value) (name : String) (nullable : Bool) (cells : List (Option A))
        → AreCells rows name nullable cells
        → length cells ≡ length rows
    AreCells-length [] name nullable [] h = refl
    AreCells-length [] name nullable (cell ∷ cells) h = absurd h
    AreCells-length (row ∷ rows) name nullable [] h = absurd h
    AreCells-length (row ∷ rows) name nullable (cell ∷ cells) h =
        ap ℕ.suc (AreCells-length rows name nullable cells h.1)

    pub AreCells-not_nullable :
        (rows : List Value) (name : String) (cells : List (Option A))
        → AreCells rows name false cells
        → All (λ cell. is_some cell ≡ true) cells
    AreCells-not_nullable [] name [] h = tt
    AreCells-not_nullable [] name (cell ∷ cells) h = absurd h
    AreCells-not_nullable (row ∷ rows) name [] h = absurd h
    AreCells-not_nullable (row ∷ rows) name (none ∷ cells) h = cc (h.0.2)
    AreCells-not_nullable (row ∷ rows) name (some a ∷ cells) h =
        (refl, AreCells-not_nullable rows name cells h.1)
