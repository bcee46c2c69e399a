-- ===== src/Engine/Error.antt =====
-- src/engine.rs: `LanceDbEngineErrorKind`, `LanceDbEngineError`, `to_engine_error`.
use vldb_lancedb.Prelude.{String}

pub data LanceDbEngineErrorKind : Type 0 where
  invalid_argument internal : LanceDbEngineErrorKind

pub record LanceDbEngineError : Type 0 where
  pub kind : LanceDbEngineErrorKind
  pub message : String

-- `LanceDbEngineError::invalid_argument`
abbrev pub invalid_argument_error : String → LanceDbEngineError
invalid_argument_error message = record { kind = invalid_argument; message = message }

-- `LanceDbEngineError::internal`
abbrev pub internal_error : String → LanceDbEngineError
internal_error message = record { kind = internal; message = message }

-- The argument is the text that the other error displays.
abbrev pub to_engine_error : String → LanceDbEngineError
to_engine_error text = internal_error text
