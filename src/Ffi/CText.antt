-- ===== src/Ffi/CText.antt =====
-- src/ffi.rs: what the C interface reads from the caller's memory, and the texts that it hands out. The
-- caller promises that what it points to is readable: an array is given by its elements.
use vldb_lancedb.Text.Format.{show}
use Prim.Native.Char.{char}
use vldb_lancedb.Text.{contains_char, replace_char, is_empty, trim}
use vldb_lancedb.Ffi.{CStr, CString, utf8, not_utf8}
use vldb_lancedb.Prelude.{
  List, Option, String, ℕ, if◌then◌else◌, ◌≡◌, some, Result, ◌==◌, none, err, ok, [], ◌<>◌, ◌∷◌,
  take, ◌>>=◌, false, suc, refl, Bool-cases, code, inl, inr,
}

-- `sanitize_message`
unfoldable pub sanitize_message : String → String
sanitize_message message = replace_char 0 (char 0x20 tt) message

-- `CString::new`, which refuses a text with a NUL character
unfoldable pub cstring_new : String → Option String
cstring_new text = if contains_char 0 text then none else some text

unfoldable pub c_string_to_owned : CStr → String → Result String String
c_string_to_owned (utf8 text) field_name = ok text
c_string_to_owned not_utf8 field_name = err (field_name <> " must be valid UTF-8")

unfoldable pub required_c_string : CString → String → Result String String
unfolding c_string_to_owned
required_c_string none field_name = err (field_name <> " must not be null")
required_c_string (some value) field_name = do
  text ← c_string_to_owned value field_name
  if is_empty (trim text) then err (field_name <> " must not be empty") else ok text

unfoldable pub optional_c_string : CString → String → Result (Option String) String
unfolding c_string_to_owned
optional_c_string none field_name = ok none
optional_c_string (some value) field_name = do
  text ← c_string_to_owned value field_name
  ok (if is_empty (trim text) then none else some text)

-- `value.unwrap_or_default()`
abbrev pub or_empty : Option String → String
or_empty none = ""
or_empty (some text) = text

unfoldable pub copy_input_bytes : Option (List ℕ) → ℕ → Result (List ℕ) String
copy_input_bytes source data_len = if data_len == 0 then ok [] else (elim source [
  | none ↦ err "data must not be null when data_len > 0"
  | some bytes ↦ ok (take data_len bytes)
])

unfoldable pub copy_input_f32_slice :
    {F32 : Type 0} → Option (List F32) → ℕ → String → Result (List F32) String
copy_input_f32_slice source data_len field_name =
    if data_len == 0 then err (field_name <> " must not be empty") else (elim source [
      | none ↦ err (field_name <> " must not be null when data_len > 0")
      | some items ↦ ok (take data_len items)
    ])

-- The map over the pointers of an array, from the index `i`
unfoldable pub c_strings_from : List CString → ℕ → String → Result (List String) String
c_strings_from [] i field_name = ok []
c_strings_from (value ∷ values) i field_name = do
  text ← required_c_string value (field_name <> "[" <> show i <> "]")
  rest ← c_strings_from values (suc i) field_name
  ok (text ∷ rest)

unfoldable pub copy_c_string_array :
    Option (List CString) → ℕ → String → Result (List String) String
unfolding c_strings_from
copy_c_string_array source values_len field_name = if values_len == 0 then ok [] else (elim source [
  | none ↦ err (field_name <> " must not be null when values_len > 0")
  | some values ↦ c_strings_from (take values_len values) 0 field_name
])

unfoldable pub normalize_non_zero : ℕ → ℕ → ℕ
normalize_non_zero value default_value = if value == 0 then default_value else value

-- No text that the interface hands out is lost to a NUL character in it.
contains_char-replace_char :
    (s : String) → contains_char 0 (replace_char 0 (char 0x20 tt) s) ≡ false
unfolding contains_char replace_char
contains_char-replace_char String.[] = refl
contains_char-replace_char (String.◌∷◌ c s) = elim (Bool-cases (code c == 0)) [
  | inl e ↦ rw e (contains_char-replace_char s)
  | inr e ↦ rw (e, e) (contains_char-replace_char s)
]

pub cstring_new-sanitize_message :
    (s : String) → cstring_new (sanitize_message s) ≡ some (sanitize_message s)
unfolding cstring_new sanitize_message
cstring_new-sanitize_message s = rw (contains_char-replace_char s)
