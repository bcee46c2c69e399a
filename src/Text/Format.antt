-- ===== src/Text/Format.antt =====
-- Decimal numbers in formatted messages, `{}` of an unsigned integer.
use vldb_lancedb.Prelude.{
  ℕ, zero, suc, ◌+◌, ◌/◌, ◌%◌, ◌<◌, String, ◌<>◌, ◌≡◌, refl, ltb, if◌then◌else◌, arith,
}
use Prim.Native.Char.{char, IsScalar}

IsScalar_of_digit : (n : ℕ) → IsScalar (48 + n % 10)
IsScalar_of_digit n = let h : 48 + n % 10 < 128 = omega arith in ground arith

abbrev digit : ℕ → String
digit n = String.◌∷◌ (char (48 + n % 10) (IsScalar_of_digit n)) ""

-- Each division by 10 makes a positive number smaller, so `n + 1` rounds print all of `n`.
unfoldable pub show_from : ℕ → ℕ → String
unfolding IsScalar_of_digit
show_from zero n = ""
show_from (suc fuel) n =
    let front = show_from fuel (n / 10) in if ltb n 10 then digit n else front <> digit n

unfoldable pub show : ℕ → String
unfolding show_from
show n = show_from (suc n) n

show_test : show 52428800 ≡ "52428800"
unfolding show
show_test = refl
