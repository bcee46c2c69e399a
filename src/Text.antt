-- ===== src/Text.antt =====
-- What the program uses of Rust's `str`: a `String` is a list of Unicode scalar values.
pub mod Trim
pub mod Format
pub mod FilePath
pub mod FileName
pub mod Absolute
use vldb_lancedb.Prelude.{
  ℕ, zero, suc, ◌+◌, ◌-◌, ◌/◌, ◌%◌, ◌≤◌, ◌<◌, Char, code, String, ◌<>◌, Bool, true, false, ◌&&◌,
  ◌||◌, List, [], ◌∷◌, Option, none, some, leb, ltb, ◌==◌, if◌then◌else◌, is_some, arith, dec_le,
}
use Prim.Native.Char.{char, IsScalar}
use Prim.Native.String

-- `char::is_whitespace`: the Unicode property White_Space.
unfoldable pub is_whitespace : Char → Bool
is_whitespace c =
    let n = code c in
    (leb 0x9 n && leb n 0xd)
    || n == 0x20
    || n == 0x85
    || n == 0xa0
    || n == 0x1680
    || (leb 0x2000 n && leb n 0x200a)
    || n == 0x2028
    || n == 0x2029
    || n == 0x202f
    || n == 0x205f
    || n == 0x3000

abbrev pub is_empty : String → Bool
is_empty String.[] = true
is_empty (String.◌∷◌ c s) = false

unfoldable pub trim_start : String → String
trim_start String.[] = ""
trim_start (String.◌∷◌ c s) = if is_whitespace c then trim_start s else String.◌∷◌ c s

-- A character goes only if it is blank and nothing is left behind it.
unfoldable pub cons_unless_blank : Char → String → String
cons_unless_blank c String.[] = if is_whitespace c then "" else String.◌∷◌ c ""
cons_unless_blank c (String.◌∷◌ d s) = String.◌∷◌ c (String.◌∷◌ d s)

unfoldable pub trim_end : String → String
trim_end String.[] = ""
trim_end (String.◌∷◌ c s) = cons_unless_blank c (trim_end s)

-- `str::trim`
unfoldable pub trim : String → String
trim s = trim_end (trim_start s)

IsScalar_of_lt : (n : ℕ) → n < 128 → IsScalar n
IsScalar_of_lt n h = ground arith

-- `char::to_ascii_lowercase`
unfoldable pub to_lower : Char → Char
unfolding dec_le IsScalar_of_lt
to_lower c = elim (dec_le 65 (code c)) [
  | no _ ↦ c
  | yes _ ↦ elim (dec_le (code c) 90) [
    | no _ ↦ c
    | yes q ↦ char (code c + 32) (IsScalar_of_lt (code c + 32) (omega arith))
  ]
]

-- `str::to_ascii_lowercase`
unfoldable pub to_ascii_lowercase : String → String
unfolding to_lower
to_ascii_lowercase String.[] = ""
to_ascii_lowercase (String.◌∷◌ c s) = String.◌∷◌ (to_lower c) (to_ascii_lowercase s)

-- `str::strip_prefix`, the prefix first
unfoldable pub strip_prefix : String → String → Option String
strip_prefix String.[] s = some s
strip_prefix (String.◌∷◌ p ps) String.[] = none
strip_prefix (String.◌∷◌ p ps) (String.◌∷◌ c s) =
    if code p == code c then strip_prefix ps s else none

-- `str::contains` for a text and for a character
unfoldable pub contains : String → String → Bool
unfolding strip_prefix
contains pat String.[] = is_empty pat
contains pat (String.◌∷◌ c s) = is_some (strip_prefix pat (String.◌∷◌ c s)) || contains pat s

unfoldable pub contains_char : ℕ → String → Bool
contains_char n String.[] = false
contains_char n (String.◌∷◌ c s) = code c == n || contains_char n s

-- `trim_end_matches` for a character
unfoldable pub cons_unless_last : ℕ → Char → String → String
cons_unless_last n c String.[] = if code c == n then "" else String.◌∷◌ c ""
cons_unless_last n c (String.◌∷◌ d s) = String.◌∷◌ c (String.◌∷◌ d s)

unfoldable pub trim_end_matches : ℕ → String → String
unfolding cons_unless_last
trim_end_matches n String.[] = ""
trim_end_matches n (String.◌∷◌ c s) = cons_unless_last n c (trim_end_matches n s)

-- `str::replace` of one character
unfoldable pub replace_char : ℕ → Char → String → String
replace_char n d String.[] = ""
replace_char n d (String.◌∷◌ c s) = String.◌∷◌ (if code c == n then d else c) (replace_char n d s)
