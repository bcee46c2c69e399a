-- ===== src/Tests/Tables.antt =====
-- The operations of the engine, run on the small database.
use vldb_lancedb.Engine.Tables.Exact.{create_table_iff, delete_iff}
use vldb_lancedb.Engine.Tables.Upserts.{Upserted, vector_upsert-Upserted}
use vldb_lancedb.Engine.Ingest.{
  build_array_for_field, append_cells, read_cell, extract_field_value, nullable_value, expect_found,
  expect_u64,
}
use vldb_lancedb.Engine.Tables.Success.{Created, Dropped, Deleted, drop_table-Dropped}
use vldb_lancedb.Engine.Tables.Locking.{serve-idle}
use vldb_lancedb.Engine.Decode.{
  decode_input_to_batches, decode_json_rows_to_batches, parse_rows, json_rows_to_record_batch,
  build_arrays,
}
use vldb_lancedb.Engine.Tables.Guards.{IsRefusal, answer_of_IsInvalid}
use vldb_lancedb.Engine.Tables.Searches.{
  effective_limit_above_max, effective_limit_bounds, Found, IsLimit, vector_search-Found,
}
use vldb_lancedb.Engine.Encode.{
  normalize_output_format, encode_batches_as_json, encode_all, encode_rows, fill_object,
  column_value, json_value_from_array, scalar_value, count_rows,
}
use vldb_lancedb.Tests.Stubs.{
  options_stub, json_stub, panic_stub, arrow_stub, lance_stub, state_stub,
}
use vldb_lancedb.Engine.Tables.Requests.{serve, delete_rows, answer, drop, upsert}
use vldb_lancedb.Prelude.{ℕ, ◌∷◌, ◌<◌, false, ◌≤◌, [], true, max, ◌↔◌, ◌≢◌, ◌≡◌, refl, some, ok}
use vldb_lancedb.Text.{trim, trim_start, trim_end, cons_unless_blank, is_whitespace}
use vldb_lancedb.Engine.Tables.Discipline.{phase_after, idle}
use vldb_lancedb.Engine.Tables.{
  vector_search, create_table, vector_upsert, effective_limit, upsert_locked, search_locked,
  encode_as, write_rows, write_batches, normalize_table_name, drop_table, delete,
}
use vldb_lancedb.Engine.Exec.{
  Operation, EngineState, ◌>>=◌, refuse_if, pure, unlock_read, unlock_write, fail, call, lock_read,
  lock_write, lift, drop_permit, request, acquire_permit, holding_write, acquire_concurrency_permit,
  holding_read,
}
use vldb_lancedb.Types.{
  LanceDbUpsertResult, LanceDbColumnDef, LanceDbUpsertInput, LanceDbSearchResult,
  LanceDbDropTableInput, LanceDbDeleteResult, LanceDbSearchInput, LanceDbDeleteInput,
  LanceDbCreateTableInput, LanceDbColumnType, LanceDbInputFormat, LanceDbOutputFormat,
  LanceDbCreateTableResult,
}

abbrev delete_input : LanceDbDeleteInput
delete_input = record { table_name = " demo "; condition = " id > 1 " }

abbrev deleted_result : LanceDbDeleteResult
deleted_result = record { message = "delete completed for 'demo'"; version = 6; deleted_rows = 3 }

abbrev after_write : Operation → EngineState ℕ
after_write operation = record {
  db = 6;
  closed = false;
  trace =
      unlock_write "demo"
      ∷ call operation "demo"
      ∷ call Operation.open_table "demo"
      ∷ lock_write "demo"
      ∷ drop_permit
      ∷ acquire_permit
      ∷ [];
}

delete_iff_example :
    (((delete json_stub panic_stub arrow_stub lance_stub options_stub delete_input state_stub).0
        ≡ ok deleted_result)
      × ((delete json_stub panic_stub arrow_stub lance_stub options_stub delete_input
            state_stub).1.db
          ≡ 6))
    ↔ Deleted json_stub panic_stub arrow_stub lance_stub options_stub delete_input deleted_result 5
        6
delete_iff_example =
    delete_iff json_stub panic_stub arrow_stub lance_stub options_stub delete_input deleted_result
      state_stub 6 refl

abbrev column_id : LanceDbColumnDef
column_id = record {
  name = "id";
  column_type = LanceDbColumnType.uint64;
  vector_dim = 0;
  nullable = false;
}

abbrev create_input : LanceDbCreateTableInput
create_input = record { table_name = "demo"; columns = column_id ∷ []; overwrite_if_exists = true }

abbrev created_state : EngineState ℕ
created_state = record {
  db = 6;
  closed = false;
  trace =
      unlock_write "demo"
      ∷ call Operation.create_empty_table "demo"
      ∷ lock_write "demo"
      ∷ drop_permit
      ∷ acquire_permit
      ∷ [];
}

abbrev ready : LanceDbCreateTableResult
ready = record { message = "table 'demo' is ready" }

create_table_iff_example :
    (((create_table json_stub panic_stub arrow_stub lance_stub options_stub create_input
          state_stub).0
        ≡ ok ready)
      × ((create_table json_stub panic_stub arrow_stub lance_stub options_stub create_input
            state_stub).1.db
          ≡ 6))
    ↔ Created json_stub panic_stub arrow_stub lance_stub options_stub create_input ready 5 6
create_table_iff_example =
    create_table_iff json_stub panic_stub arrow_stub lance_stub options_stub create_input ready
      state_stub 6 refl

abbrev drop_input : LanceDbDropTableInput
drop_input = record { table_name = "demo" }

abbrev dropped_state : EngineState ℕ
dropped_state = record {
  db = 6;
  closed = false;
  trace =
      unlock_write "demo"
      ∷ call Operation.drop_table "demo"
      ∷ lock_write "demo"
      ∷ drop_permit
      ∷ acquire_permit
      ∷ [];
}

drop_table-Dropped_example :
    Dropped json_stub panic_stub arrow_stub lance_stub options_stub drop_input 5 6
unfolding drop_table ◌>>=◌ refuse_if pure fail request holding_write acquire_concurrency_permit
    normalize_table_name trim trim_start trim_end cons_unless_blank is_whitespace
drop_table-Dropped_example =
    drop_table-Dropped json_stub panic_stub arrow_stub lance_stub options_stub drop_input
      (record { message = "table 'demo' dropped" }) state_stub dropped_state refl

abbrev upsert_input : LanceDbUpsertInput
upsert_input = record {
  table_name = "demo";
  input_format = LanceDbInputFormat.unspecified;
  bytes = 3 ∷ 4 ∷ [];
  key_columns = "id" ∷ [];
}

abbrev upsert_result : LanceDbUpsertResult
upsert_result = record {
  message = "merge upsert completed";
  version = 6;
  input_rows = 2;
  inserted_rows = 1;
  updated_rows = 1;
  deleted_rows = 0;
}

abbrev upserted_state : EngineState ℕ
upserted_state = record {
  db = 6;
  closed = false;
  trace =
      unlock_write "demo"
      ∷ call Operation.merge_insert "demo"
      ∷ call Operation.schema "demo"
      ∷ call Operation.schema "demo"
      ∷ call Operation.open_table "demo"
      ∷ lock_write "demo"
      ∷ drop_permit
      ∷ acquire_permit
      ∷ [];
}

vector_upsert-Upserted_example :
    Upserted json_stub panic_stub arrow_stub lance_stub options_stub upsert_input upsert_result 5 6
unfolding vector_upsert upsert_locked write_rows write_batches ◌>>=◌ refuse_if pure fail lift
    request holding_write acquire_concurrency_permit normalize_table_name trim trim_start trim_end
    cons_unless_blank is_whitespace decode_input_to_batches decode_json_rows_to_batches parse_rows
    json_rows_to_record_batch build_arrays build_array_for_field append_cells read_cell
    extract_field_value nullable_value expect_found expect_u64
vector_upsert-Upserted_example =
    vector_upsert-Upserted json_stub panic_stub arrow_stub lance_stub options_stub upsert_input
      upsert_result state_stub upserted_state refl

abbrev search_input : LanceDbSearchInput ℕ
search_input = record {
  table_name = "demo ";
  vector = 1 ∷ 2 ∷ [];
  limit = 0;
  filter = "";
  vector_column = " v ";
  output_format = LanceDbOutputFormat.json_rows;
}

abbrev search_result : LanceDbSearchResult
search_result = record {
  message = "search completed";
  format = LanceDbOutputFormat.json_rows;
  rows = 2;
  bytes = 2 ∷ [];
}

abbrev searched_state : EngineState ℕ
searched_state = record {
  db = 5;
  closed = false;
  trace =
      unlock_read "demo"
      ∷ call Operation.try_collect "demo"
      ∷ call Operation.execute "demo"
      ∷ call Operation.output_schema "demo"
      ∷ call Operation.open_table "demo"
      ∷ lock_read "demo"
      ∷ drop_permit
      ∷ acquire_permit
      ∷ [];
}

vector_search-Found_example :
    Found json_stub panic_stub arrow_stub lance_stub options_stub search_input search_result 5 5
unfolding vector_search search_locked encode_as normalize_output_format encode_batches_as_json
    encode_all encode_rows fill_object column_value json_value_from_array scalar_value count_rows
    ◌>>=◌ refuse_if pure fail lift request holding_read acquire_concurrency_permit
    normalize_table_name trim trim_start trim_end cons_unless_blank is_whitespace
vector_search-Found_example =
    vector_search-Found json_stub panic_stub arrow_stub lance_stub options_stub search_input
      search_result state_stub searched_state refl

serve-idle_example :
    phase_after
      (serve json_stub panic_stub arrow_stub lance_stub options_stub
        (delete_rows delete_input ∷ upsert upsert_input ∷ [])
        state_stub).trace
    ≡ some idle
serve-idle_example =
    serve-idle json_stub panic_stub arrow_stub lance_stub options_stub
      (delete_rows delete_input ∷ upsert upsert_input ∷ []) state_stub refl

abbrev nameless : LanceDbDropTableInput
nameless = record { table_name = " \t " }

answer_of_IsInvalid_example :
    IsRefusal
      (answer json_stub panic_stub arrow_stub lance_stub options_stub (drop nameless) state_stub)
      state_stub
unfolding trim trim_start trim_end cons_unless_blank is_whitespace
answer_of_IsInvalid_example =
    answer_of_IsInvalid json_stub panic_stub arrow_stub lance_stub options_stub (drop nameless)
      state_stub refl

effective_limit_bounds_example :
    IsLimit options_stub 100 (effective_limit options_stub 100)
    × (options_stub.max_search_limit ≢ 0 → effective_limit options_stub 100 ≢ 0)
    × (effective_limit options_stub 100 ≤ max 10 options_stub.max_search_limit)
effective_limit_bounds_example = effective_limit_bounds options_stub 100

effective_limit_above_max_example :
    (options_stub.max_search_limit < effective_limit options_stub 0)
    ↔ ((◌≡◌ {A = ℕ} 0 0) × (options_stub.max_search_limit < 10))
effective_limit_above_max_example = effective_limit_above_max options_stub 0
