-- ===== src/Engine/Exec/Inversion.antt =====
-- What a successful action did: one lemma for each way to build an action.
use vldb_lancedb.Prelude.{String, ◌≡◌, refl, sym, Bool, true, false, ◌∷◌, Result, ok, err, arith}
use vldb_lancedb.Engine.Error.{LanceDbEngineError}
use vldb_lancedb.Engine.Exec.{
  Operation, lock_write, lock_read, EngineState, Exec, pure, lift, request, holding_write,
  holding_read, continue, ◌>>=◌, ◌>>◌, refuse_if, acquire_concurrency_permit,
}

module _ {Db A : Type 0} where
  pub pure-eq-ok :
      (a b : A) (s s' : EngineState Db) → pure a s ≡ (ok b, s') → (a ≡ b) × (s.db ≡ s'.db)
  unfolding pure
  pure-eq-ok a b s s' h = ground arith

  pub lift-eq-ok :
      (r : Result A LanceDbEngineError) (a : A) (s s' : EngineState Db)
      → lift r s ≡ (ok a, s')
      → (r ≡ ok a) × (s.db ≡ s'.db)
  unfolding lift
  lift-eq-ok r a s s' h = ground arith

  pub request-eq-ok :
      (operation : Operation) (table : String) (f : Db → Result A String × Db) (a : A)
      (s s' : EngineState Db)
      → request operation table f s ≡ (ok a, s')
      → f s.db ≡ (ok a, s'.db)
  unfolding request
  request-eq-ok operation table f a s s' h = ground arith

  pub holding_write-eq-ok :
      (key : String) (body : Exec Db A) (a : A) (s s' : EngineState Db)
      → holding_write key body s ≡ (ok a, s')
      → (t : EngineState Db) × (body (record s { trace = lock_write key ∷ s.trace }) ≡ (ok a, t))
        × (t.db ≡ s'.db)
  unfolding holding_write
  holding_write-eq-ok key body a s s' h =
      ((body (record s { trace = lock_write key ∷ s.trace })).1, ground arith, ground arith)

  pub holding_read-eq-ok :
      (key : String) (body : Exec Db A) (a : A) (s s' : EngineState Db)
      → holding_read key body s ≡ (ok a, s')
      → (t : EngineState Db) × (body (record s { trace = lock_read key ∷ s.trace }) ≡ (ok a, t))
        × (t.db ≡ s'.db)
  unfolding holding_read
  holding_read-eq-ok key body a s s' h =
      ((body (record s { trace = lock_read key ∷ s.trace })).1, ground arith, ground arith)

module _ {Db A B : Type 0} where
  pub >>=-eq-ok :
      (m : Exec Db A) (f : A → Exec Db B) (b : B) (s s'' : EngineState Db)
      → (m >>= f) s ≡ (ok b, s'')
      → (a : A) × (s' : EngineState Db) × (m s ≡ (ok a, s')) × (f a s' ≡ (ok b, s''))
  unfolding ◌>>=◌
  >>=-eq-ok m f b s s'' h = go (m s).0 (m s).1 refl h
    where
      go :
          (r : Result A LanceDbEngineError) (s' : EngineState Db)
          → m s ≡ (r, s')
          → continue r f s' ≡ (ok b, s'')
          → (a : A) × (s' : EngineState Db) × (m s ≡ (ok a, s')) × (f a s' ≡ (ok b, s''))
      go (ok a) s' e k = (a, s', e, k)
      go (err x) s' e k = ground arith

module _ {Db : Type 0} where
  pub refuse_if-eq-ok :
      (test : Bool) (e : LanceDbEngineError) (u : Unit {0}) (s s' : EngineState Db)
      → refuse_if test e s ≡ (ok u, s')
      → (test ≡ false) × (s ≡ s')
  unfolding refuse_if
  refuse_if-eq-ok true e u s s' h = ground arith
  refuse_if-eq-ok false e u s s' h = ground arith

  pub acquire_concurrency_permit-eq-ok :
      (u : Unit {0}) (s s' : EngineState Db)
      → acquire_concurrency_permit s ≡ (ok u, s')
      → (s.closed ≡ false) × (s.db ≡ s'.db)
  unfolding acquire_concurrency_permit
  acquire_concurrency_permit-eq-ok u s s' h = ground arith

-- The same with the rest of a proof as a continuation, whose variables stand for the parts.
module _ {Db A B C : Type 0} where
  pub after :
      (m : Exec Db A) (f : A → Exec Db B) (b : B) (s s'' : EngineState Db)
      → (m >>= f) s ≡ (ok b, s'')
      → ((a : A) (s' : EngineState Db) → m s ≡ (ok a, s') → f a s' ≡ (ok b, s'') → C)
      → C
  after m f b s s'' h k = let (a, s', e, h') = >>=-eq-ok m f b s s'' h in k a s' e h'

  pub after_request :
      (operation : Operation) (table : String) (g : Db → Result A String × Db) (f : A → Exec Db B)
      (b : B) (s s'' : EngineState Db)
      → (request operation table g >>= f) s ≡ (ok b, s'')
      → ((a : A) (s' : EngineState Db) → g s.db ≡ (ok a, s'.db) → f a s' ≡ (ok b, s'') → C)
      → C
  after_request operation table g f b s s'' h k =
      after _ _ _ _ _ h λ a s' e h'. k a s' (request-eq-ok operation table g a s s' e) h'

  pub after_lift :
      (r : Result A LanceDbEngineError) (f : A → Exec Db B) (b : B) (s s'' : EngineState Db)
      → (lift r >>= f) s ≡ (ok b, s'')
      → ((a : A) → r ≡ ok a → f a s ≡ (ok b, s'') → C)
      → C
  unfolding lift ◌>>=◌
  after_lift (ok a) f b s s'' h k = k a refl h
  after_lift (err e) f b s s'' h k = absurd (ground arith)

module _ {Db B C : Type 0} where
  pub after_refuse :
      (test : Bool) (e : LanceDbEngineError) (f : Exec Db B) (b : B) (s s'' : EngineState Db)
      → (refuse_if test e >> f) s ≡ (ok b, s'')
      → (test ≡ false → f s ≡ (ok b, s'') → C)
      → C
  unfolding refuse_if ◌>>=◌
  after_refuse true e f b s s'' h k = absurd (ground arith)
  after_refuse false e f b s s'' h k = k refl h

  pub after_permit :
      (f : Exec Db B) (b : B) (s s'' : EngineState Db)
      → (acquire_concurrency_permit >> f) s ≡ (ok b, s'')
      → ((s' : EngineState Db) → s'.db ≡ s.db → f s' ≡ (ok b, s'') → C)
      → C
  after_permit f b s s'' h k =
      after _ _ _ _ _ h λ u s' e h'. k s' (sym (acquire_concurrency_permit-eq-ok u s s' e).1) h'

  pub inside_write :
      (key : String) (body : Exec Db B) (b : B) (s s'' : EngineState Db)
      → holding_write key body s ≡ (ok b, s'')
      → ((s' t : EngineState Db) → s'.db ≡ s.db → body s' ≡ (ok b, t) → t.db ≡ s''.db → C)
      → C
  inside_write key body b s s'' h k =
      let (t, e, same) = holding_write-eq-ok key body b s s'' h in k _ t refl e same

  pub inside_read :
      (key : String) (body : Exec Db B) (b : B) (s s'' : EngineState Db)
      → holding_read key body s ≡ (ok b, s'')
      → ((s' t : EngineState Db) → s'.db ≡ s.db → body s' ≡ (ok b, t) → t.db ≡ s''.db → C)
      → C
  inside_read key body b s s'' h k =
      let (t, e, same) = holding_read-eq-ok key body b s s'' h in k _ t refl e same
