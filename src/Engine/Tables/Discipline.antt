-- ===== src/Engine/Tables/Discipline.antt =====
-- The order in which an operation touches the shared objects: permit, lock, calls, unlock.
use vldb_lancedb.Prelude.{
  String, ◌≡◌, Bool, true, false, ◌&&◌, List, [], ◌∷◌, Option, none, some, Result, ok, err,
  if◌then◌else◌, ◌=ₛ◌, eq_refl, refl,
}
use vldb_lancedb.Engine.Error.{LanceDbEngineError, internal_error}
use vldb_lancedb.Engine.Exec.{
  Operation, output_schema, execute, try_collect, Event, acquire_permit, drop_permit, lock_read,
  lock_write, unlock_read, unlock_write, call, EngineState, Exec, pure, fail, lift, request,
  holding_write, holding_read, ◌>>=◌, refuse_if, acquire_concurrency_permit, continue,
}

-- Where a request stands: before its permit or at its end, with the permit, with the permit dropped, or with
-- a lock.
pub data Phase : Type 0 where
  idle admitted cleared : Phase
  reading writing : (key : String) → Phase

abbrev pub is_read : Operation → Bool
is_read Operation.open_table = true
is_read Operation.schema = true
is_read Operation.version = true
is_read Operation.output_schema = true
is_read Operation.execute = true
is_read Operation.try_collect = true
is_read _ = false

abbrev pub next : Event → Phase → Option Phase
next acquire_permit idle = some admitted
next drop_permit admitted = some cleared
next (lock_read key) cleared = some (reading key)
next (lock_write key) cleared = some (writing key)
next (unlock_read key) (reading held) = if key =ₛ held then some idle else none
next (unlock_write key) (writing held) = if key =ₛ held then some idle else none
next (call operation table) (reading held) =
    if is_read operation && (table =ₛ held) then some (reading held) else none
next (call operation table) (writing held) = if table =ₛ held then some (writing held) else none
next _ _ = none

abbrev step : Event → Option Phase → Option Phase
step event none = none
step event (some phase) = next event phase

-- Runs the trace, whose head is its last event; `none` means that an event came where it may not.
abbrev pub phase_after : List Event → Option Phase
phase_after [] = some idle
phase_after (event ∷ trace) = step event (phase_after trace)

-- The action leaves a request in the phase in which it finds it, whether it succeeds or fails.
pub record Keeps {Db A : Type 0} (phase : Phase) (m : Exec Db A) : Type 0 where
  pub at :
      (s : EngineState Db)
      → phase_after s.trace ≡ some phase
      → phase_after (m s).1.trace ≡ some phase

-- The action takes the lock for which the request was cleared, and gives it back.
pub record Closes {Db A : Type 0} (m : Exec Db A) : Type 0 where
  pub at :
      (s : EngineState Db)
      → phase_after s.trace ≡ some cleared
      → phase_after (m s).1.trace ≡ some idle

module _ {Db A : Type 0} {phase : Phase} where
  pub Keeps-pure : (a : A) → Keeps {Db = Db} phase (pure a)
  unfolding pure
  Keeps-pure a = record { at = λ s h. h }

  pub Keeps-fail : (e : LanceDbEngineError) → Keeps {Db = Db} {A = A} phase (fail e)
  unfolding fail
  Keeps-fail e = record { at = λ s h. h }

  pub Keeps-lift : (r : Result A LanceDbEngineError) → Keeps {Db = Db} phase (lift r)
  unfolding lift
  Keeps-lift r = record { at = λ s h. h }

module _ {Db A : Type 0} where
  pub Keeps-if :
      {phase : Phase} (b : Bool) (m n : Exec Db A)
      → Keeps phase m
      → Keeps phase n
      → Keeps phase (if b then m else n)
  Keeps-if true m n km kn = km
  Keeps-if false m n km kn = kn

  pub Keeps-request_writing :
      (operation : Operation) (key : String) (f : Db → Result A String × Db)
      → Keeps (writing key) (request operation key f)
  unfolding request
  Keeps-request_writing operation key f = record { at = λ s h. rw (h, eq_refl key) }

  pub Keeps-request_reading :
      (operation : Operation) (key : String) (f : Db → Result A String × Db)
      → is_read operation ≡ true
      → Keeps (reading key) (request operation key f)
  unfolding request
  Keeps-request_reading operation key f e = record { at = λ s h. rw (h, e, eq_refl key) }

  pub Closes-holding_write :
      (key : String) (body : Exec Db A) → Keeps (writing key) body → Closes (holding_write key body)
  unfolding holding_write
  Closes-holding_write key body k = record {
    at = λ s h. rw (k.at (record s { trace = lock_write key ∷ s.trace }) (rw h), eq_refl key);
  }

  pub Closes-holding_read :
      (key : String) (body : Exec Db A) → Keeps (reading key) body → Closes (holding_read key body)
  unfolding holding_read
  Closes-holding_read key body k = record {
    at = λ s h. rw (k.at (record s { trace = lock_read key ∷ s.trace }) (rw h), eq_refl key);
  }

module _ {Db A B : Type 0} where
  pub Keeps-bind :
      {phase : Phase} (m : Exec Db A) (f : A → Exec Db B)
      → Keeps phase m
      → ((a : A) → Keeps phase (f a))
      → Keeps phase (m >>= f)
  unfolding ◌>>=◌
  Keeps-bind {phase} m f km kf = record { at = λ s h. go (m s).0 (m s).1 (km.at s h) }
    where
      go :
          (r : Result A LanceDbEngineError) (s' : EngineState Db)
          → phase_after s'.trace ≡ some phase
          → phase_after (continue r f s').1.trace ≡ some phase
      go (ok a) s' h = (kf a).at s' h
      go (err e) s' h = h

module _ {Db A B : Type 0} where
  pub Closes-bind :
      (m : Exec Db A) (f : A → Exec Db B)
      → Closes m
      → ((a : A) → Keeps idle (f a))
      → Closes (m >>= f)
  unfolding ◌>>=◌
  Closes-bind m f km kf = record { at = λ s h. go (m s).0 (m s).1 (km.at s h) }
    where
      go :
          (r : Result A LanceDbEngineError) (s' : EngineState Db)
          → phase_after s'.trace ≡ some idle
          → phase_after (continue r f s').1.trace ≡ some idle
      go (ok a) s' h = (kf a).at s' h
      go (err e) s' h = h

module _ {Db B : Type 0} where
  -- A permit is acquired at the start and cleared for one lock; without it the request ends.
  pub Keeps-permit :
      (f : Unit {0} → Exec Db B)
      → ((u : Unit {0}) → Closes (f u))
      → Keeps idle (acquire_concurrency_permit >>= f)
  unfolding ◌>>=◌ acquire_concurrency_permit
  Keeps-permit f kf = record { at = λ s h. go s s.closed h }
    where
      outcome : EngineState Db → Bool → Result (Unit {0}) LanceDbEngineError × EngineState Db
      outcome s closed =
          if closed
          then (err (internal_error "engine is shutting down"), s)
          else (ok tt, record s { trace = drop_permit ∷ acquire_permit ∷ s.trace })

      go :
          (s : EngineState Db) (closed : Bool)
          → phase_after s.trace ≡ some idle
          → phase_after (continue (outcome s closed).0 f (outcome s closed).1).1.trace ≡ some idle
      go s true h = h
      go s false h =
          (kf tt).at (record s { trace = drop_permit ∷ acquire_permit ∷ s.trace }) (rw h refl)

module _ {Db : Type 0} where
  pub Keeps-refuse_if :
      {phase : Phase} (test : Bool) (e : LanceDbEngineError)
      → Keeps {Db = Db} phase (refuse_if test e)
  unfolding refuse_if
  Keeps-refuse_if true e = record { at = λ s h. h }
  Keeps-refuse_if false e = record { at = λ s h. h }

pub ruleset keeps_rules = (
  Keeps-pure, Keeps-fail, Keeps-lift, Keeps-if, Keeps-request_writing, Keeps-request_reading,
  Closes-holding_write, Closes-holding_read, Keeps-bind, Keeps-refuse_if, Keeps-permit, Closes-bind,
  continue,
)
