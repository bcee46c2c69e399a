-- ===== src/Engine/Exec.antt =====
-- The engine's operations as actions: each has the connection's state and the trace of what it did,
-- with a result or an error. The trace is newest first; it is what other requests can notice.
pub mod Inversion
use vldb_lancedb.Prelude.{String, Bool, List, [], ◌∷◌, Result, ok, err, map_err, if◌then◌else◌}
use vldb_lancedb.Engine.Error.{LanceDbEngineError, internal_error, to_engine_error}

-- The calls of the connection and of a table
pub data Operation : Type 0 where
  create_empty_table drop_table open_table schema version add merge_insert delete : Operation
  output_schema execute try_collect : Operation

pub data Event : Type 0 where
  acquire_permit drop_permit : Event
  lock_read lock_write unlock_read unlock_write : (key : String) → Event
  call : Operation → (table : String) → Event

-- `closed` says that the semaphore is closed, which makes `acquire` fail.
pub record EngineState (Db : Type 0) : Type 0 where
  pub db : Db
  pub closed : Bool
  pub trace : List Event

abbrev pub Exec : Type 0 → Type 0 → Type 0
Exec Db A = EngineState Db → Result A LanceDbEngineError × EngineState Db

module _ {Db A : Type 0} where
  unfoldable pub pure : A → Exec Db A
  pure a s = (ok a, s)

  unfoldable pub fail : LanceDbEngineError → Exec Db A
  fail e s = (err e, s)

  unfoldable pub lift : Result A LanceDbEngineError → Exec Db A
  lift r s = (r, s)

  -- A call of the database, its error mapped by `to_engine_error`
  unfoldable pub request : Operation → String → (Db → Result A String × Db) → Exec Db A
  request operation table f s =
      let (r, db') = f s.db in
      (map_err to_engine_error r, record s { db = db'; trace = call operation table ∷ s.trace })

  -- The lock is given back when the guard is dropped, whatever the body's result.
  unfoldable pub holding_write : String → Exec Db A → Exec Db A
  holding_write key body s =
      let (r, s') = body (record s { trace = lock_write key ∷ s.trace }) in
      (r, record s' { trace = unlock_write key ∷ s'.trace })

  unfoldable pub holding_read : String → Exec Db A → Exec Db A
  holding_read key body s =
      let (r, s') = body (record s { trace = lock_read key ∷ s.trace }) in
      (r, record s' { trace = unlock_read key ∷ s'.trace })

module _ {Db A B : Type 0} where
  abbrev pub continue :
      Result A LanceDbEngineError
      → (A → Exec Db B)
      → EngineState Db
      → Result B LanceDbEngineError × EngineState Db
  continue (ok a) f s = f a s
  continue (err e) f s = (err e, s)

  infixl 10 ◌>>=◌ ◌>>◌
  unfoldable pub ◌>>=◌ : Exec Db A → (A → Exec Db B) → Exec Db B
  ◌>>=◌ m f s = let (r, s') = m s in continue r f s'

  abbrev pub ◌>>◌ : Exec Db A → Exec Db B → Exec Db B
  m >> n = m >>= λ _. n

module _ {Db : Type 0} where
  -- `if test { return Err(e) }`
  unfoldable pub refuse_if : Bool → LanceDbEngineError → Exec Db (Unit {0})
  unfolding fail pure
  refuse_if test e = if test then fail e else pure tt

  -- `acquire` and the `map` that drops the permit which it returns
  unfoldable pub acquire_concurrency_permit : Exec Db (Unit {0})
  acquire_concurrency_permit s =
      if s.closed
      then (err (internal_error "engine is shutting down"), s)
      else (ok tt, record s { trace = drop_permit ∷ acquire_permit ∷ s.trace })
