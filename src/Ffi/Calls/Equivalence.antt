-- ===== src/Ffi/Calls/Equivalence.antt =====
-- src/ffi.rs: the two forms of an upsert, by JSON and by plain arguments, and the inputs that they make.
use vldb_lancedb.Text.Format.{show}
use vldb_lancedb.Ffi.Formats.{parse_input_format, parse_ffi_input_format}
use vldb_lancedb.Ffi.{VldbLancedbFfiInputFormat, utf8}
use vldb_lancedb.Text.{is_empty, trim}
use vldb_lancedb.Ffi.Inputs.{raw_upsert_input, map_upsert_input}
use vldb_lancedb.Ffi.CText.{
  c_strings_from, required_c_string, copy_c_string_array, c_string_to_owned,
}
use vldb_lancedb.Prelude.{
  refl, take, String, List, All, some, ℕ, ◌≡◌, Option, length, map, ok, false, ◌∷◌, ◌<>◌, suc, [],
  ◌==◌, arith,
}

-- A text that is more than blanks
abbrev pub IsFilled : String → Type 0
IsFilled text = is_empty (trim text) ≡ false

required_c_string-utf8 :
    (text field_name : String)
    → IsFilled text
    → required_c_string (some (utf8 text)) field_name ≡ ok text
unfolding required_c_string c_string_to_owned
required_c_string-utf8 text field_name h = rw h refl

c_strings_from-utf8 :
    (keys : List String) (i : ℕ) (field_name : String)
    → All IsFilled keys
    → c_strings_from (take (length keys) (map (λ k. some (utf8 k)) keys)) i field_name ≡ ok keys
unfolding c_strings_from
c_strings_from-utf8 [] i field_name h = refl
c_strings_from-utf8 (key ∷ keys) i field_name h =
    rw
      (
        required_c_string-utf8 key (field_name <> "[" <> show i <> "]") h.0,
        c_strings_from-utf8 keys (suc i) field_name h.1,
      )
      refl

copy_c_string_array-utf8 :
    (keys : List String) (field_name : String)
    → All IsFilled keys
    → copy_c_string_array (some (map (λ k. some (utf8 k)) keys)) (length keys) field_name ≡ ok keys
unfolding copy_c_string_array c_strings_from
copy_c_string_array-utf8 [] field_name h = refl
copy_c_string_array-utf8 (key ∷ keys) field_name h =
    rw (counted (length keys)) (c_strings_from-utf8 (key ∷ keys) 0 field_name h)
  where
    counted : (n : ℕ) → (suc n == 0) ≡ false
    counted n = ground arith

-- Where the table and the key columns have names that are more than blanks and the two formats say the same,
-- the plain arguments and the JSON object give the engine the same input, or fail with the same message.
pub raw_upsert_input-map_upsert_input :
    (table_name input_format : String) (format : VldbLancedbFfiInputFormat) (keys : List String)
    (source : Option (List ℕ)) (data_len : ℕ)
    → IsFilled table_name
    → All IsFilled keys
    → parse_input_format input_format ≡ ok (parse_ffi_input_format format)
    → raw_upsert_input
        (some (utf8 table_name))
        format
        source
        data_len
        (some (map (λ k. some (utf8 k)) keys))
        (length keys)
      ≡ map_upsert_input
          (record { table_name = table_name; input_format = input_format; key_columns = keys })
          source
          data_len
unfolding raw_upsert_input map_upsert_input
raw_upsert_input-map_upsert_input table_name input_format format keys source data_len name named
      same =
    rw
      (
        required_c_string-utf8 table_name "table_name" name,
        copy_c_string_array-utf8 keys "key_columns" named,
        same,
      )
      refl
