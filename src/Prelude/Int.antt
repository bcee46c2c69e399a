-- ===== src/Prelude/Int.antt =====
-- Signed integers over the native numbers, `negsuc n` being -(n + 1), and Rust's integer casts.
use Prim.Native.Nat.{ℕ, ◌-◌, ◌^◌, ◌<◌}
use mathlib.Core.Path.{◌≡◌}
use mathlib.Core.Logic.{◌↔◌}
use mathlib.Core.Option.{Option, none, some}
use native.Mathlib.Omega.{arith}
use vldb_lancedb.Prelude.Tests.{ltb, if◌then◌else◌}

pub data ℤ : Type 0 where
  pos : ℕ → ℤ
  negsuc : ℕ → ℤ

-- `i32::try_from` of a wider signed integer
unfoldable pub to_i32 : ℤ → Option ℤ
to_i32 (pos n) = if ltb n (2 ^ 31) then some (pos n) else none
to_i32 (negsuc n) = if ltb n (2 ^ 31) then some (negsuc n) else none

-- `u32::try_from` of a wider unsigned integer
unfoldable pub to_u32 : ℕ → Option ℕ
to_u32 n = if ltb n (2 ^ 32) then some n else none

-- `as i32` of a `u32`: the same 32 bits, read in two's complement
unfoldable pub u32_as_i32 : ℕ → ℤ
u32_as_i32 n = if ltb n (2 ^ 31) then pos n else negsuc (2 ^ 32 - n - 1)

-- `as usize` of an `i32` on a 64-bit machine: the sign is extended
unfoldable pub i32_as_usize : ℤ → ℕ
i32_as_usize (pos n) = n
i32_as_usize (negsuc n) = 2 ^ 64 - n - 1

-- The number of rounds of `for _ in 0..n`
abbrev pub rounds : ℤ → ℕ
rounds (pos n) = n
rounds (negsuc n) = 0

-- A `u32` survives the two casts exactly when it is below 2^31.
pub i32_as_usize-u32_as_i32_iff :
    (n : ℕ) → n < 2 ^ 32 → (i32_as_usize (u32_as_i32 n) ≡ n) ↔ (n < 2 ^ 31)
unfolding i32_as_usize u32_as_i32
i32_as_usize-u32_as_i32_iff n h = ground arith
