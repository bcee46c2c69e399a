-- ===== src/Engine/Limiter.antt =====
-- src/engine.rs: the semaphore of an engine and `acquire_concurrency_permit`, with the requests that use
-- it in any interleaving. `acquire` returns a permit that goes back to the semaphore when it is dropped;
-- the function drops it before it returns, so a request that goes on holds none.
use vldb_lancedb.Engine.Options.{LanceDbEngineOptions, permits}
use vldb_lancedb.Prelude.{
  ℕ, ◌≡◌, ◌+◌, Option, if◌then◌else◌, ◌-◌, arith, suc, some, ltb, ◌∙◌, zero, none,
}

-- `holding` counts the requests between `acquire` and the drop, `inside` those that went on.
pub record Limiter : Type 0 where
  pub available : ℕ
  pub holding : ℕ
  pub inside : ℕ

abbrev pub new_limiter : LanceDbEngineOptions → Limiter
new_limiter options = record { available = permits options; holding = 0; inside = 0 }

-- The two halves of `acquire_concurrency_permit`; a request waits while nothing is available.
unfoldable pub acquire : Limiter → Option Limiter
acquire l =
    if ltb 0 l.available
    then some (record l { available = l.available - 1; holding = l.holding + 1 })
    else none

unfoldable pub drop_permit_and_go_on : Limiter → Option Limiter
drop_permit_and_go_on l =
    if ltb 0 l.holding
    then some
        (record { available = l.available + 1; holding = l.holding - 1; inside = l.inside + 1 })
    else none

-- The request returns its result.
unfoldable pub leave : Limiter → Option Limiter
leave l = if ltb 0 l.inside then some (record l { inside = l.inside - 1 }) else none

pub data Step (l l' : Limiter) : Type 0 where
  acquires : acquire l ≡ some l' → Step l l'
  drops : drop_permit_and_go_on l ≡ some l' → Step l l'
  leaves : leave l ≡ some l' → Step l l'

pub data Reach (l : Limiter) : Limiter → Type 0 where
  start : Reach l l
  later : {l' l'' : Limiter} → Reach l l' → Step l' l'' → Reach l l''

Step-permits : {l l' : Limiter} → Step l l' → l'.available + l'.holding ≡ l.available + l.holding
unfolding acquire drop_permit_and_go_on leave
Step-permits (acquires h) = ground arith
Step-permits (drops h) = ground arith
Step-permits (leaves h) = ground arith

-- However requests interleave, no permit is lost and none is made: those available and those held
-- by requests that still acquire are together the engine's permits.
pub Reach-permits :
    (options : LanceDbEngineOptions) {l : Limiter}
    → Reach (new_limiter options) l
    → l.available + l.holding ≡ permits options
Reach-permits options start = omega arith
Reach-permits options (later r s) = Step-permits s ∙ Reach-permits options r

abbrev crowd : LanceDbEngineOptions → ℕ → Limiter
crowd options n = record { available = permits options; holding = 0; inside = n }

acquire-crowd :
    (options : LanceDbEngineOptions) (n : ℕ)
    → acquire (crowd options n)
      ≡ some (record { available = permits options - 1; holding = 1; inside = n })
unfolding acquire permits
acquire-crowd options n = ground arith

drop-crowd :
    (options : LanceDbEngineOptions) (n : ℕ)
    → drop_permit_and_go_on (record { available = permits options - 1; holding = 1; inside = n })
      ≡ some (crowd options (suc n))
unfolding drop_permit_and_go_on permits
drop-crowd options n = ground arith

-- The permits bound nothing: with any maximum, a state is reachable in which any number of requests
-- are past `acquire_concurrency_permit` at once, with every permit available.
pub Reach-crowd :
    (options : LanceDbEngineOptions) (n : ℕ)
    → Reach (new_limiter options) (record { available = permits options; holding = 0; inside = n })
Reach-crowd options zero = start
Reach-crowd options (suc n) =
    later (later (Reach-crowd options n) (acquires (acquire-crowd options n)))
      (drops (drop-crowd options n))
