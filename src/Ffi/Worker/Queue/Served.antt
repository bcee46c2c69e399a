-- ===== src/Ffi/Worker/Queue/Served.antt =====
-- src/ffi.rs: the answers that the callers of the worker get, and the calls of `ffi_block_on` in turn.
use vldb_lancedb.Ffi.Backend.{Job}
use vldb_lancedb.Ffi.Memory.{pure, Ffi, ◌>>=◌, started, continue}
use vldb_lancedb.Ffi.Worker.{
  ffi_block_on, ffi_runtime_worker, known_startup, dispatch, run_job, received, startup_error,
}
use vldb_lancedb.Ffi.Worker.Queue.{
  run_jobs, work_turns, block_on_each, take_job, send_job, Queue, idle_worker, work, Step, Reach,
  sends, next, works, here,
}
use vldb_lancedb.Prelude.{
  refl, List, ◌≡◌, ℕ, suc, ◌++◌, length, ◌≤◌, ◌∙◌, zero, append_assoc, [], some, arith, sym, ap,
  ◌∷◌, append-nil,
}

module _ {World A : Type 0} where
  -- Running what is pending completes what running all that was sent gives.
  abbrev pub IsServed : World → Queue World A → Type 0
  IsServed start q =
      run_jobs q.sent start
      ≡ (q.answers ++ (run_jobs q.pending q.world).0, (run_jobs q.pending q.world).1)

  run_jobs-append :
      (jobs jobs' : List (ℕ × Job World A)) (world : World)
      → run_jobs (jobs ++ jobs') world ≡ (
        (run_jobs jobs world).0 ++ (run_jobs jobs' (run_jobs jobs world).1).0,
        (run_jobs jobs' (run_jobs jobs world).1).1,
      )
  unfolding run_jobs
  run_jobs-append [] jobs' world = refl
  run_jobs-append ((caller, job) ∷ jobs) jobs' world =
      rw (run_jobs-append jobs jobs' (job world).1) refl

  send_job-IsServed :
      (start : World) (caller : ℕ) (job : Job World A) (q : Queue World A)
      → IsServed start q
      → IsServed start (send_job caller job q)
  unfolding send_job run_jobs
  send_job-IsServed start caller job q h = simp (run_jobs-append, h, append_assoc)

  take_job-IsServed :
      (start : World) (pending : List (ℕ × Job World A)) (q : Queue World A)
      → q.pending ≡ pending
      → IsServed start q
      → IsServed start (take_job pending q)
  unfolding take_job run_jobs
  take_job-IsServed start [] q e h = h
  take_job-IsServed start ((caller, job) ∷ rest) q e h = rw append_assoc (h ∙ rw e refl)

  work-IsServed : (start : World) (q : Queue World A) → IsServed start q → IsServed start (work q)
  unfolding work
  work-IsServed start q h = take_job-IsServed start q.pending q refl h

  Step-IsServed :
      (start : World) {q r : Queue World A} → Step q r → IsServed start q → IsServed start r
  Step-IsServed start (sends caller job q) h = send_job-IsServed start caller job q h
  Step-IsServed start (works q) h = work-IsServed start q h

  pub Reach-IsServed :
      (start : World) {q : Queue World A} → Reach (idle_worker start) q → IsServed start q
  unfolding idle_worker run_jobs
  Reach-IsServed start here = refl
  Reach-IsServed start (next before step) = Step-IsServed start step (Reach-IsServed start before)

  -- A turn takes one job off the queue.
  length-work : (n : ℕ) (q : Queue World A) → length q.pending ≤ suc n → length (work q).pending ≤ n
  unfolding work take_job
  length-work n q h = go q.pending h refl
    where
      go :
          (pending : List (ℕ × Job World A))
          → length pending ≤ suc n
          → q.pending ≡ pending
          → length (take_job pending q).pending ≤ n
      go [] h e = rw e (omega arith)
      go ((caller, job) ∷ rest) h e = omega (arith, h)

  work_turns-nil :
      (n : ℕ) (q : Queue World A) → length q.pending ≤ n → (work_turns n q).pending ≡ []
  unfolding work_turns
  work_turns-nil zero q h = go q.pending h
    where
      go : (pending : List (ℕ × Job World A)) → length pending ≤ 0 → pending ≡ []
      go [] h = refl
      go (job ∷ pending) h = absurd (omega (arith, h))
  work_turns-nil (suc n) q h = work_turns-nil n (work q) (length-work n q h)

  pub work_turns-IsServed :
      (start : World) (n : ℕ) (q : Queue World A)
      → IsServed start q
      → IsServed start (work_turns n q)
  unfolding work_turns
  work_turns-IsServed start zero q h = h
  work_turns-IsServed start (suc n) q h =
      work_turns-IsServed start n (work q) (work-IsServed start q h)

  take_job-sent :
      (pending : List (ℕ × Job World A)) (q : Queue World A) → (take_job pending q).sent ≡ q.sent
  unfolding take_job
  take_job-sent [] q = refl
  take_job-sent ((caller, job) ∷ rest) q = refl

  work_turns-sent : (n : ℕ) (q : Queue World A) → (work_turns n q).sent ≡ q.sent
  unfolding work_turns work
  work_turns-sent zero q = refl
  work_turns-sent (suc n) q = work_turns-sent n (work q) ∙ take_job-sent q.pending q

  -- From any state that callers and the worker reach in any order, as many turns of the worker as jobs are
  -- pending leave none; the answers are then those of the jobs run one after the other in the order in
  -- which they were sent, one for each, the jobs that panic included.
  pub work_turns-run_jobs :
      (start : World) (q : Queue World A) (n : ℕ)
      → Reach (idle_worker start) q
      → length q.pending ≤ n
      → ((work_turns n q).pending ≡ [])
        × (((work_turns n q).answers, (work_turns n q).world) ≡ run_jobs q.sent start)
  unfolding run_jobs
  work_turns-run_jobs start q n reach enough = (
    empty,
    sym (
        ap (λ jobs. run_jobs jobs start) (sym (work_turns-sent n q))
        ∙ work_turns-IsServed start n q (Reach-IsServed start reach)
        ∙ rw (empty, append-nil (work_turns n q).answers) refl),
  )
    where
      empty : (work_turns n q).pending ≡ []
      empty = work_turns-nil n q enough

module _ {Runtime Engine World A : Type 0} where
  pub ffi_block_on-started :
      (job : Job World A) (s : Ffi Runtime Engine World)
      → known_startup s.startup s.worker ≡ started
      → ffi_block_on job s
        ≡ some (
          received (job s.world).0,
          record s { worker = some (known_startup s.startup s.worker); world = (job s.world).1 },
        )
  unfolding ffi_block_on ffi_runtime_worker dispatch run_job ◌>>=◌
  ffi_block_on-started job s ready =
      ap (λ failed. continue (some (startup_error failed, served)) (λ e. dispatch e job)) ready
    where
      served : Ffi Runtime Engine World
      served = record s { worker = some (known_startup s.startup s.worker) }

  block_on_each-run_jobs :
      (jobs : List (ℕ × Job World A)) (s : Ffi Runtime Engine World)
      → known_startup s.startup s.worker ≡ started
      → (s' : Ffi Runtime Engine World) × (block_on_each jobs s
          ≡ some ((run_jobs jobs s.world).0, s'))
        × (s'.world ≡ (run_jobs jobs s.world).1)
  unfolding block_on_each run_jobs pure ◌>>=◌
  block_on_each-run_jobs [] s ready = (s, refl, refl)
  block_on_each-run_jobs ((caller, job) ∷ jobs) s ready =
      let (s', e, w) =
        block_on_each-run_jobs jobs
          (record s { worker = some (known_startup s.startup s.worker); world = (job s.world).1 })
          ready in
      (s', rw (ffi_block_on-started job s ready, continue, e) refl, w)

  -- Where the worker has started, whatever the order in which the callers sent their jobs and the worker
  -- took them, once none is pending each caller has the answer that it would have if the calls had been made
  -- one after the other, in the order of sending, and the world is the one that these calls leave.
  pub Reach-block_on_each :
      (s : Ffi Runtime Engine World) (q : Queue World A)
      → known_startup s.startup s.worker ≡ started
      → Reach (idle_worker s.world) q
      → q.pending ≡ []
      → (s' : Ffi Runtime Engine World) × (block_on_each q.sent s ≡ some (q.answers, s'))
        × (s'.world ≡ q.world)
  unfolding work_turns
  Reach-block_on_each s q ready reach empty =
      let (s', e, w) = block_on_each-run_jobs q.sent s ready in
      let same = (work_turns-run_jobs s.world q 0 reach (rw empty (omega arith))).1 in
      (s', e ∙ ap (λ r. some (r.0, s')) (sym same), w ∙ ap (λ r. r.1) (sym same))
