-- ===== src/Ffi.antt =====
-- src/ffi.rs: the C interface. Its data, as C sees it; a pointer is null, `none`, or an address.
pub mod Formats
pub mod CText
pub mod Memory
pub mod Inputs
pub mod Options
pub mod Worker
pub mod Backend
pub mod Calls
use vldb_lancedb.Prelude.{ℕ, Option, String}

abbrev pub Ptr : Type 0
Ptr = Option ℕ

-- A readable C string, by what `CStr::to_str` makes of its bytes
pub data CStr : Type 0 where
  utf8 : String → CStr
  not_utf8 : CStr

-- A `*const c_char` that the caller passes
abbrev pub CString : Type 0
CString = Option CStr

pub record VldbLancedbRuntimeOptions : Type 0 where
  pub default_db_path : CString
  pub db_root : CString
  pub read_consistency_interval_ms : ℕ
  pub has_read_consistency_interval : ℕ
  pub max_upsert_payload : ℕ
  pub max_search_limit : ℕ
  pub max_concurrent_requests : ℕ

pub record VldbLancedbByteBuffer : Type 0 where
  pub address : Ptr
  pub len : ℕ
  pub cap : ℕ

pub data VldbLancedbStatusCode : Type 0 where
  success failure : VldbLancedbStatusCode

-- The numbers that C sees
unfoldable pub status_code : VldbLancedbStatusCode → ℕ
status_code success = 0
status_code failure = 1

pub data VldbLancedbFfiInputFormat : Type 0 where
  unspecified json_rows arrow_ipc : VldbLancedbFfiInputFormat

pub data VldbLancedbFfiOutputFormat : Type 0 where
  unspecified arrow_ipc json_rows : VldbLancedbFfiOutputFormat

unfoldable pub output_format_number : VldbLancedbFfiOutputFormat → ℕ
output_format_number VldbLancedbFfiOutputFormat.unspecified = 0
output_format_number VldbLancedbFfiOutputFormat.arrow_ipc = 1
output_format_number VldbLancedbFfiOutputFormat.json_rows = 2

pub record VldbLancedbUpsertResultPod : Type 0 where
  pub version : ℕ
  pub input_rows : ℕ
  pub inserted_rows : ℕ
  pub updated_rows : ℕ
  pub deleted_rows : ℕ

pub record VldbLancedbSearchResultMeta : Type 0 where
  pub format : ℕ
  pub rows : ℕ
  pub byte_length : ℕ
