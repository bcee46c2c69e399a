-- ===== src/Runtime/Engines.antt =====
-- src/runtime.rs: what the engines of one runtime share.
use vldb_lancedb.Engine.Limiter.{new_limiter}
use vldb_lancedb.Engine.Locks.{new_coordinator}
use vldb_lancedb.Manager.Cache.Repeats.{open_named_again}
use vldb_lancedb.Manager.Cache.{Outcome, open_named}
use vldb_lancedb.Prelude.{
  Option, String, ◌≡◌, ok, sym, ok-injective, err, refl, ◌≤◌, ◌≢◌, ap, suc, arith,
}
use vldb_lancedb.Runtime.{
  new_engine, LanceDbRuntime, LanceDbEngine, engine_on, open_named_engine, Arcs,
}
use vldb_lancedb.External.Storage.{Storage}

module _ {Connection : Type 0} (S : Storage Connection) where
  pub engine_on-eq-ok :
      (runtime : LanceDbRuntime Connection) (arcs : Arcs) (opened : Outcome S)
      (engine : LanceDbEngine Connection)
      → (engine_on S runtime arcs opened).0 ≡ ok engine
      → (opened.0 ≡ ok engine.db)
        × (engine ≡ (new_engine engine.db runtime.engine_options arcs).0)
        × ((engine_on S runtime arcs opened).1 ≡ record runtime { manager = opened.1 })
        × ((engine_on S runtime arcs opened).3
            ≡ (new_engine engine.db runtime.engine_options arcs).1)
  unfolding new_engine
  engine_on-eq-ok runtime arcs (ok connection, manager, w) engine h =
      rw (sym (ok-injective h)) (refl, refl, refl, refl)
  engine_on-eq-ok runtime arcs (err e, manager, w) engine h = cc

  -- After an engine of a database was opened, opening it again, however many engines were made meanwhile,
  -- gives an engine on the same connection without a call of the file system or of lancedb. Its locks and its
  -- permits are other objects than those of the first engine: they are new, whatever state those of the
  -- first are in, and those of the first stay in that state.
  pub open_named_engine_again :
      (runtime : LanceDbRuntime Connection) (name : Option String) (w : S.World) (arcs : Arcs)
      (first : LanceDbEngine Connection)
      → (open_named_engine S runtime name w arcs).0 ≡ ok first
      → (w' : S.World) (arcs' : Arcs)
      → (open_named_engine S runtime name w arcs).3.next ≤ arcs'.next
      → (second : LanceDbEngine Connection) × (after : Arcs) × (open_named_engine S
            (open_named_engine S runtime name w arcs).1
            name
            w'
            arcs'
          ≡ (ok second, (open_named_engine S runtime name w arcs).1, w', after))
        × (second.db ≡ first.db)
        × (second.table_access ≢ first.table_access)
        × (second.concurrency_limiter ≢ first.concurrency_limiter)
        × (after.coordinators second.table_access ≡ new_coordinator)
        × (after.limiters second.concurrency_limiter ≡ new_limiter runtime.engine_options)
        × (after.coordinators first.table_access ≡ arcs'.coordinators first.table_access)
        × (after.limiters first.concurrency_limiter ≡ arcs'.limiters first.concurrency_limiter)
  unfolding open_named_engine new_engine
  open_named_engine_again runtime name w arcs first h w' arcs' later =
      let (opened, fresh, same, left) =
        engine_on-eq-ok runtime arcs (open_named S runtime.manager name w) first h in
      let lock : first.table_access ≡ arcs.next = ap (λ e. e.table_access) fresh in
      let limiter : first.concurrency_limiter ≡ arcs.next = ap (λ e. e.concurrency_limiter) fresh in
      let given : (open_named_engine S runtime name w arcs).3.next ≡ suc arcs.next =
        ap (λ a. a.next) left in
      (
        (new_engine first.db runtime.engine_options arcs').0,
        (new_engine first.db runtime.engine_options arcs').1,
        rw (same, open_named_again S runtime.manager name w first.db opened w') refl,
        refl,
        λ e. omega arith,
        λ e. omega arith,
        ground arith,
        ground arith,
        ground arith,
        ground arith,
      )
