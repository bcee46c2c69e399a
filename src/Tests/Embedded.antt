-- ===== src/Tests/Embedded.antt =====
-- The C interface over the library, on the small instances of what the library calls.
use vldb_lancedb.Runtime.Foreign.{status_for, message_for, engine_vector_upsert_raw-vector_upsert}
use vldb_lancedb.Ffi.{utf8, VldbLancedbFfiInputFormat}
use vldb_lancedb.Tests.Foreign.{ffi_json_stub}
use vldb_lancedb.Ffi.Calls.Tables.{engine_vector_upsert_raw}
use vldb_lancedb.Engine.Tables.{vector_upsert}
use vldb_lancedb.Ffi.Memory.{engine_handle, started}
use vldb_lancedb.Text.{trim, trim_start, trim_end, cons_unless_blank, is_whitespace}
use vldb_lancedb.Ffi.Formats.{parse_ffi_input_format}
use vldb_lancedb.Ffi.CText.{
  required_c_string, c_string_to_owned, copy_c_string_array, c_strings_from, copy_input_bytes,
}
use vldb_lancedb.Tests.Stubs.{
  json_stub, panic_stub, options_stub, arrow_stub, lance_stub, storage_stub, arcs_stub,
}
use vldb_lancedb.Ffi.Inputs.{raw_upsert_input}
use vldb_lancedb.Ffi.Calls.{State}
use vldb_lancedb.Types.{LanceDbUpsertInput, LanceDbInputFormat}
use vldb_lancedb.Runtime.Library.{LibraryWorld, library, started_on}
use vldb_lancedb.Runtime.{new_engine, LanceDbEngine}
use vldb_lancedb.Prelude.{refl, ℕ, ◌∷◌, [], if◌then◌else◌, none, ◌==◌, some, length, false, ◌≡◌}

abbrev engine_stub : LanceDbEngine ℕ
engine_stub = (new_engine 0 options_stub arcs_stub).0

abbrev world_stub : LibraryWorld json_stub panic_stub arrow_stub lance_stub storage_stub
world_stub = record { runtimes = λ r. none; next = 0; storage = 0; arcs = arcs_stub; dbs = λ c. 5 }

abbrev ffi_stub : State (library json_stub panic_stub arrow_stub lance_stub storage_stub)
ffi_stub = record {
  heap = λ a. if a == 3 then some (engine_handle engine_stub) else none;
  next = 4;
  last_error = none;
  startup = started;
  worker = none;
  world = world_stub;
}

abbrev input_stub : LanceDbUpsertInput
input_stub = record {
  table_name = "demo";
  input_format = LanceDbInputFormat.json_rows;
  bytes = 1 ∷ (2 ∷ []);
  key_columns = "id" ∷ [];
}

engine_vector_upsert_raw-vector_upsert_example :
    let (answer, after) =
      vector_upsert json_stub panic_stub arrow_stub lance_stub options_stub input_stub
        (started_on json_stub panic_stub arrow_stub lance_stub storage_stub world_stub 0) in
    (s' : State (library json_stub panic_stub arrow_stub lance_stub storage_stub))
    × (engine_vector_upsert_raw
          (library json_stub panic_stub arrow_stub lance_stub storage_stub)
          ffi_json_stub
          length
          (some 3)
          (some (utf8 "demo"))
          VldbLancedbFfiInputFormat.json_rows
          (some (1 ∷ (2 ∷ [])))
          2
          (some (some (utf8 "id") ∷ []))
          1
          false
          ffi_stub
        ≡ some (
          status_for json_stub panic_stub arrow_stub lance_stub storage_stub ffi_json_stub length
              answer,
          s',
        ))
    × (s'.last_error
        ≡ message_for json_stub panic_stub arrow_stub lance_stub storage_stub ffi_json_stub length
            answer)
    × (s'.world.dbs 0 ≡ after.db)
unfolding new_engine raw_upsert_input required_c_string c_string_to_owned copy_c_string_array
    c_strings_from copy_input_bytes parse_ffi_input_format trim trim_start trim_end
    cons_unless_blank is_whitespace
engine_vector_upsert_raw-vector_upsert_example =
    engine_vector_upsert_raw-vector_upsert json_stub panic_stub arrow_stub lance_stub storage_stub
      ffi_json_stub length 3 engine_stub (some (utf8 "demo")) VldbLancedbFfiInputFormat.json_rows
      (some (1 ∷ (2 ∷ []))) 2 (some (some (utf8 "id") ∷ [])) 1 input_stub ffi_stub refl refl refl
