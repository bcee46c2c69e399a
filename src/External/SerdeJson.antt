-- ===== src/External/SerdeJson.antt =====
-- Rust's floating-point types and the crate serde_json, as far as src/engine.rs calls them.
use vldb_lancedb.Prelude.{ℕ, String, Bool, List, Option, Result, ◌≡◌, true, some}
use vldb_lancedb.Prelude.Int.{ℤ}

pub record Floats : Type 1 where
  pub F32 : Type 0
  pub F64 : Type 0
  -- `as f32` and `as f64`
  pub narrow : F64 → F32
  pub widen : F32 → F64

-- `Value` is serde_json's value, `Object` its map. The `as_` functions read a value, the `of_`
-- functions are `Value::from` and the constructors. An error is given by the text that it displays.
pub record SerdeJson : Type 1 where
  pub floats : Floats
  pub open floats use *
  pub Value : Type 0
  pub Object : Type 0
  pub is_null : Value → Bool
  pub as_object : Value → Option Object
  pub as_array : Value → Option (List Value)
  pub as_str : Value → Option String
  pub as_i64 : Value → Option ℤ
  pub as_u64 : Value → Option ℕ
  pub as_f64 : Value → Option F64
  pub as_bool : Value → Option Bool
  pub get : Object → String → Option Value
  pub null : Value
  pub of_string : String → Value
  pub of_i64 : ℤ → Value
  pub of_u64 : ℕ → Value
  pub of_f64 : F64 → Value
  pub of_bool : Bool → Value
  pub of_array : List Value → Value
  pub of_object : Object → Value
  pub new_object : Object
  pub insert : Object → String → Value → Object
  pub from_slice : List ℕ → Result (List Value) String
  pub to_vec : List Value → Result (List ℕ) String

-- A value that reads as a text, a boolean or an integer is the value made of it, and null is one value.
pub record SerdeJsonLaws (J : SerdeJson) : Type 1 where
  pub null_only : (v : J.Value) → J.is_null v ≡ true → v ≡ J.null
  pub str_only : (v : J.Value) (s : String) → J.as_str v ≡ some s → v ≡ J.of_string s
  pub i64_only : (v : J.Value) (z : ℤ) → J.as_i64 v ≡ some z → v ≡ J.of_i64 z
  pub u64_only : (v : J.Value) (n : ℕ) → J.as_u64 v ≡ some n → v ≡ J.of_u64 n
  pub bool_only : (v : J.Value) (b : Bool) → J.as_bool v ≡ some b → v ≡ J.of_bool b
