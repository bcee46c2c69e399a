-- ===== src/Ffi/Worker/Queue.antt =====
-- src/ffi.rs: the channel to the worker, with callers on several threads. A job is sent with the channel on
-- which its caller waits, given by a number; the results of all jobs have one type.
pub mod Served
use vldb_lancedb.Ffi.Memory.{Call, Ffi, pure, started, ◌>>=◌, continue}
use vldb_lancedb.Prelude.{refl, append_assoc, ◌∙◌, length, ◌≤◌, arith, sym, ap, some, append-nil}
use vldb_lancedb.Ffi.Worker.{
  received, ffi_block_on, known_startup, ffi_runtime_worker, dispatch, run_job, startup_error,
}
use vldb_lancedb.Ffi.Backend.{Job}
use vldb_lancedb.Prelude.{List, ◌≡◌, ℕ, [], suc, ◌++◌, ◌∷◌, Result, String, zero}
use Prim.Native.Nat.{ℕ}
use Prim.Native.String.{[]}

pub record Queue (World A : Type 0) : Type 0 where
  pub pending : List (ℕ × Job World A)
  pub answers : List (ℕ × Result A String)
  pub world : World
  -- The jobs that were ever sent, in the order of sending
  pub sent : List (ℕ × Job World A)

module _ {World A : Type 0} where
  unfoldable pub idle_worker : World → Queue World A
  idle_worker world = record { pending = []; answers = []; world = world; sent = [] }

  -- `worker.sender.send(...)`
  unfoldable pub send_job : ℕ → Job World A → Queue World A → Queue World A
  send_job caller job q = record q {
    pending = q.pending ++ ((caller, job) ∷ []);
    sent = q.sent ++ ((caller, job) ∷ []);
  }

  -- One turn of the worker's loop: it waits where no job is pending, and a panic is caught.
  unfoldable pub take_job : List (ℕ × Job World A) → Queue World A → Queue World A
  take_job [] q = q
  take_job ((caller, job) ∷ rest) q = record q {
    pending = rest;
    answers = q.answers ++ ((caller, received (job q.world).0) ∷ []);
    world = (job q.world).1;
  }

  unfoldable pub work : Queue World A → Queue World A
  unfolding take_job
  work q = take_job q.pending q

  unfoldable pub work_turns : ℕ → Queue World A → Queue World A
  work_turns zero q = q
  work_turns (suc n) q = work_turns n (work q)

  -- Callers and the worker in any order
  pub data Step : Queue World A → Queue World A → Type 0 where
    sends : (caller : ℕ) (job : Job World A) (q : Queue World A) → Step q (send_job caller job q)
    works : (q : Queue World A) → Step q (work q)

  pub data Reach (q : Queue World A) : Queue World A → Type 0 where
    here : Reach q q
    next : {r t : Queue World A} → Reach q r → Step r t → Reach q t

  -- The jobs one after the other, each from the world that the one before it left
  unfoldable pub run_jobs : List (ℕ × Job World A) → World → List (ℕ × Result A String) × World
  run_jobs [] world = ([], world)
  run_jobs ((caller, job) ∷ jobs) world =
      let (outcome, world') = job world in
      let (answers, final) = run_jobs jobs world' in ((caller, received outcome) ∷ answers, final)

module _ {Runtime Engine World A : Type 0} where
  -- Calls of `ffi_block_on` from one thread
  unfoldable pub block_on_each :
      List (ℕ × Job World A) → Call (Ffi Runtime Engine World) (List (ℕ × Result A String))
  block_on_each [] = pure []
  block_on_each ((caller, job) ∷ jobs) = do
    answer ← ffi_block_on job
    answers ← block_on_each jobs
    pure ((caller, answer) ∷ answers)
