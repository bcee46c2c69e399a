-- ===== src/Ffi/Worker.antt =====
-- src/ffi.rs: `ffi_runtime_worker` and `ffi_block_on`. One thread runs the jobs one after the other; a job
-- that panics is caught there, and its caller learns that the answer was dropped. The thread never ends, so
-- that a job can always be sent.
pub mod Queue
use vldb_lancedb.Prelude.{Option, String, some, Result, err, none, ◌<>◌}
use vldb_lancedb.Ffi.Backend.{Job}
use vldb_lancedb.Ffi.Memory.{
  Startup, Call, Ffi, pure, ◌>>=◌, spawn_failed, build_failed, started, no_signal,
}

-- The message of a start that failed
abbrev pub startup_error : Startup → Option String
startup_error started = none
startup_error (spawn_failed error) = some ("failed to spawn FFI runtime worker: " <> error)
startup_error (build_failed error) = some ("failed to build FFI runtime: " <> error)
startup_error no_signal = some "failed to receive FFI runtime worker startup signal"

abbrev pub known_startup : Startup → Option Startup → Startup
known_startup first none = first
known_startup first (some met) = met

-- What `result_rx.recv()` makes of a job's end
abbrev pub received : {A : Type 0} → Option (Result A String) → Result A String
received none = err "FFI runtime worker dropped the response channel"
received (some outcome) = outcome

module _ {Runtime Engine World : Type 0} where
  -- `FFI_RUNTIME_WORKER.get_or_init(...)`: the first call starts the worker, all later ones find what it met.
  unfoldable pub ffi_runtime_worker : Call (Ffi Runtime Engine World) (Option String)
  ffi_runtime_worker s =
      let met = known_startup s.startup s.worker in
      some (startup_error met, record s { worker = some met })

  module _ {A : Type 0} where
    unfoldable pub run_job : Job World A → Call (Ffi Runtime Engine World) (Result A String)
    run_job job s =
        let (outcome, world) = job s.world in some (received outcome, record s { world = world })

    unfoldable pub dispatch :
        Option String → Job World A → Call (Ffi Runtime Engine World) (Result A String)
    dispatch (some message) job = pure (err message)
    dispatch none job = run_job job

    unfoldable pub ffi_block_on : Job World A → Call (Ffi Runtime Engine World) (Result A String)
    unfolding ffi_runtime_worker run_job dispatch
    ffi_block_on job = do failed ← ffi_runtime_worker; dispatch failed job
