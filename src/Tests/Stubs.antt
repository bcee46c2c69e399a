-- ===== src/Tests/Stubs.antt =====
-- Small concrete instances of serde_json, Arrow, lancedb and the file system. A JSON payload of these
-- instances has one row for each byte, `{"id": <byte>}`; a database is its version number.
use vldb_lancedb.Engine.Limiter.{new_limiter}
use vldb_lancedb.Engine.Locks.{new_coordinator}
use vldb_lancedb.Runtime.{Arcs}
use vldb_lancedb.Service.Handlers.{ServiceConfig}
use vldb_lancedb.Service.Log.{Display}
use vldb_lancedb.Prelude.Int.{pos, ℤ}
use vldb_lancedb.External.Arrow.{Arrow, ArrayRef, validity}
use vldb_lancedb.Engine.Exec.{EngineState}
use vldb_lancedb.Engine.Schema.{Schema, field, DataType}
use vldb_lancedb.Engine.Error.{LanceDbEngineError, internal_error}
use vldb_lancedb.Manager.{DatabaseRuntimeConfig}
use vldb_lancedb.Engine.Options.{LanceDbEngineOptions}
use vldb_lancedb.External.SerdeJson.{SerdeJson, Floats, SerdeJsonLaws}
use vldb_lancedb.External.Storage.{Storage}
use vldb_lancedb.Prelude.{
  ℕ, Option, String, List, Bool, true, some, false, ◌∷◌, Result, none, ok, [], ◌+◌, map, length,
  if◌then◌else◌, ◌=ₛ◌, err, arith,
}
use vldb_lancedb.External.Lance.{Lance}

mutual
  pub data Json : Type 0 where
    nothing : Json
    flag : Bool → Json
    whole : ℤ → Json
    text : String → Json
    items : Jsons → Json
    dictionary : Members → Json

  pub data Jsons : Type 0 where
    no_items : Jsons
    item : Json → Jsons → Jsons

  pub data Members : Type 0 where
    no_members : Members
    member : String → Json → Members → Members

abbrev to_list : Jsons → List Json
to_list no_items = []
to_list (item v vs) = v ∷ to_list vs

abbrev of_list : List Json → Jsons
of_list [] = no_items
of_list (v ∷ vs) = item v (of_list vs)

abbrev value_at : Members → String → Option Json
value_at no_members key = none
value_at (member k v rest) key = if k =ₛ key then some v else value_at rest key

abbrev pub id_row : ℕ → Json
id_row n = dictionary (member "id" (whole (pos n)) no_members)

abbrev is_nothing : Json → Bool
is_nothing nothing = true
is_nothing _ = false

abbrev as_dictionary : Json → Option Members
as_dictionary (dictionary members) = some members
as_dictionary _ = none

abbrev as_items : Json → Option (List Json)
as_items (items vs) = some (to_list vs)
as_items _ = none

abbrev as_text : Json → Option String
as_text (text s) = some s
as_text _ = none

abbrev as_whole : Json → Option ℤ
as_whole (whole z) = some z
as_whole _ = none

abbrev as_natural : Json → Option ℕ
as_natural (whole (pos n)) = some n
as_natural _ = none

abbrev as_flag : Json → Option Bool
as_flag (flag b) = some b
as_flag _ = none

abbrev pub floats_stub : Floats
floats_stub = record { F32 = ℕ; F64 = ℕ; narrow = λ n. n; widen = λ n. n }

abbrev pub json_stub : SerdeJson
json_stub = record {
  floats = floats_stub;
  Value = Json;
  Object = Members;
  is_null = is_nothing;
  as_object = as_dictionary;
  as_array = as_items;
  as_str = as_text;
  as_i64 = as_whole;
  as_u64 = as_natural;
  as_f64 = as_natural;
  as_bool = as_flag;
  get = value_at;
  null = nothing;
  of_string = text;
  of_i64 = whole;
  of_u64 = λ n. whole (pos n);
  of_f64 = λ n. whole (pos n);
  of_bool = flag;
  of_array = λ vs. items (of_list vs);
  of_object = dictionary;
  new_object = no_members;
  insert = λ members key v. member key v members;
  from_slice = λ bytes. ok (map id_row bytes);
  to_vec = λ vs. ok (length vs ∷ []);
}

abbrev rows_of : List (ArrayRef ℕ ℕ) → ℕ
rows_of [] = 0
rows_of (array ∷ arrays) = length (validity array)

abbrev pub arrow_stub : Arrow ℕ ℕ
arrow_stub = record {
  RecordBatch = List (ArrayRef ℕ ℕ);
  try_new = λ schema arrays. ok arrays;
  num_rows = rows_of;
  columns = λ arrays. arrays;
  read_stream = λ bytes. ok (ok (ArrayRef.uint64 (map some bytes) ∷ []) ∷ []);
  Writer = ℕ;
  new_writer = λ schema. ok 0;
  write = λ n batch. ok (n + rows_of batch);
  finish = λ n. ok n;
  into_inner = λ n. ok (n ∷ []);
  debug = λ data_type. "type";
}

abbrev id_schema : Schema
id_schema = field "id" DataType.uint64 false ∷ []

abbrev open_demo : String → ℕ → Result String String × ℕ
open_demo name db = (if name =ₛ "demo" then ok name else err "no such table", db)

abbrev pub lance_stub : Lance ℕ (List (ArrayRef ℕ ℕ))
lance_stub = record {
  Db = ℕ;
  Table = String;
  Stream = ℕ;
  create_empty_table = λ name schema mode db. (ok tt, db + 1);
  drop_table = λ name db. (ok tt, db + 1);
  open_table = open_demo;
  schema = λ table db. (ok id_schema, db);
  version = λ table db. (ok db, db);
  add = λ table mode schema batches db. (ok tt, db + 1);
  merge_insert = λ table settings schema batches db. (
    ok (record {
      version = db + 1;
      num_inserted_rows = 1;
      num_updated_rows = 1;
      num_deleted_rows = 0;
    }),
    db + 1,
  );
  delete = λ table condition db. (ok (record { version = db + 1; num_deleted_rows = 3 }), db + 1);
  nearest_to = λ table vector. ok tt;
  output_schema = λ table query db. (ok id_schema, db);
  execute = λ table query db. (ok 7, db);
  try_collect = λ stream db. (ok ((ArrayRef.uint64 (some stream ∷ some 8 ∷ []) ∷ []) ∷ []), db);
}

abbrev pub panic_stub : LanceDbEngineError
panic_stub = internal_error "index out of bounds"

abbrev pub options_stub : LanceDbEngineOptions
options_stub = record { max_upsert_payload = 4; max_search_limit = 64; max_concurrent_requests = 8 }

abbrev pub state_stub : EngineState ℕ
state_stub = record { db = 5; closed = false; trace = [] }

-- A file system that makes every directory, and connections numbered in their order
abbrev pub storage_stub : Storage ℕ
storage_stub = record {
  World = ℕ;
  create_dir_all = λ path w. (ok tt, w);
  connect = λ path interval w. (ok w, w + 1);
}

-- No engine has been made yet.
abbrev pub arcs_stub : Arcs
arcs_stub = record {
  coordinators = λ a. new_coordinator;
  limiters = λ a. new_limiter options_stub;
  next = 0;
}

abbrev pub config_stub : DatabaseRuntimeConfig
config_stub = record {
  default_db_path = "/srv/vldb/default";
  db_root = some "/srv/vldb/databases";
  read_consistency_interval_ms = some 0;
}

pub json_laws_stub : SerdeJsonLaws json_stub
json_laws_stub = record {
  null_only = λ v h. ground arith;
  str_only = λ v s h. ground arith;
  i64_only = λ v z h. ground arith;
  u64_only = λ v n h. ground arith;
  bool_only = λ v b h. ground arith;
}

abbrev pub display_stub : Display
display_stub = record {
  debug_code = λ code. "Code";
  debug_timeout = λ timeout. "30s";
  debug_input_format = λ format. "JsonRows";
  debug_output_format = λ format. "JsonRows";
}

abbrev pub service_config_stub : ServiceConfig
service_config_stub = record {
  request_timeout = some 30;
  logging = record {
    enabled = true;
    file_enabled = false;
    stderr_enabled = false;
    request_log_enabled = true;
    slow_request_log_enabled = true;
    slow_request_threshold_ms = 10;
    include_request_details_in_slow_log = false;
    request_preview_chars = 160;
    log_dir = "/var/log/vldb";
    log_file_name = "vldb-lancedb.log";
  };
}
