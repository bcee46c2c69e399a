-- ===== src/Tests/Foreign.antt =====
-- The C interface over a library that counts its calls: its world is their number.
use vldb_lancedb.Types.{LanceDbOutputFormat}
use vldb_lancedb.Ffi.Calls.Equivalence.{raw_upsert_input-map_upsert_input}
use vldb_lancedb.Ffi.Calls.Disposal.{respond-dispose}
use vldb_lancedb.Ffi.Formats.{parse_input_format, input_format_named, parse_ffi_input_format}
use vldb_lancedb.Ffi.Worker.Queue.Served.{Reach-block_on_each, work_turns-run_jobs}
use vldb_lancedb.Ffi.Calls.Contract.{IsHonest-respond}
use vldb_lancedb.Ffi.{utf8, VldbLancedbFfiInputFormat}
use vldb_lancedb.Ffi.Memory.Owns.{IsFresh}
use vldb_lancedb.Ffi.Inputs.{FfiJson, raw_upsert_input, map_upsert_input}
use vldb_lancedb.Ffi.Memory.{Ffi, engine_handle, started}
use vldb_lancedb.Ffi.Calls.Requests.{
  Response, Request, is_failure, search_for, delete_rows, respond, dispose,
}
use vldb_lancedb.Ffi.Worker.Queue.{
  Queue, work, Reach, idle_worker, take_job, send_job, sends, works, block_on_each, work_turns,
  run_jobs,
}
use vldb_lancedb.Ffi.Backend.{Backend, Job}
use vldb_lancedb.Text.{
  trim, trim_start, trim_end, cons_unless_blank, is_whitespace, to_ascii_lowercase, to_lower,
}
use vldb_lancedb.Ffi.Memory.Reports.{IsHonest}
use vldb_lancedb.Prelude.{
  refl, arith, ℕ, some, if◌then◌else◌, none, suc, String, err, length, ◌==◌, ok, false, ◌∷◌, ◌≡◌,
  [], map,
}

abbrev backend_stub : Backend
backend_stub = record {
  F32 = ℕ;
  Runtime = ℕ;
  Engine = ℕ;
  World = ℕ;
  new_runtime = λ config options w. (w, suc w);
  database_path_for_name = λ runtime name w. ok "/srv/vldb/default";
  open_named_engine = λ runtime name w. (some (ok runtime), suc w);
  create_table = λ engine input w. (some (ok (record { message = "created" })), suc w);
  vector_upsert = λ engine input w. (
    some (
        ok (record {
          message = "upserted";
          version = w;
          input_rows = 1;
          inserted_rows = 1;
          updated_rows = 0;
          deleted_rows = 0;
        })),
    suc w,
  );
  vector_search = λ engine input w. (
    some (
        ok (record {
          message = "found";
          format = LanceDbOutputFormat.arrow_ipc;
          rows = 1;
          bytes = 5 ∷ (6 ∷ []);
        })),
    suc w,
  );
  delete = λ engine input w. (none, w);
  drop_table = λ engine input w. (some (err "no such table"), suc w);
}

abbrev pub ffi_json_stub : FfiJson ℕ
ffi_json_stub = record {
  Value = String;
  create_table_from_str = λ text. err "no columns";
  upsert_from_str =
      λ text. ok (record { table_name = text; input_format = ""; key_columns = none });
  search_from_str = λ text. ok (record {
    table_name = text;
    vector = 1 ∷ [];
    limit = none;
    filter = none;
    vector_column = none;
    output_format = none;
  });
  delete_from_str = λ text. ok (record { table_name = text; condition = "id = 1" });
  drop_table_from_str = λ text. ok (record { table_name = text });
  of_bool = λ b. "true";
  of_string = λ text. text;
  of_u64 = λ n. "0";
  of_members = λ members. "{}";
  to_string = λ value. ok value;
}

-- One engine at the address 4, with a message left from an earlier call
abbrev state_stub : Ffi ℕ ℕ ℕ
state_stub = record {
  heap = λ a. if a == 4 then some (engine_handle 9) else none;
  next = 5;
  last_error = some "earlier";
  startup = started;
  worker = none;
  world = 0;
}

abbrev search_stub : Request ℕ
search_stub = search_for (some 4) (some (utf8 "docs")) false

abbrev delete_stub : Request ℕ
delete_stub = delete_rows (some 4) (some (utf8 "docs"))

IsHonest-respond_example :
    IsHonest is_failure (respond backend_stub ffi_json_stub length delete_stub state_stub)
IsHonest-respond_example =
    IsHonest-respond backend_stub ffi_json_stub length delete_stub state_stub (9, refl)

IsFresh-state_stub : IsFresh state_stub
IsFresh-state_stub address le = ground (arith, le)

respond-dispose_example :
    (r : Response) × (s' t : Ffi ℕ ℕ ℕ) × (respond backend_stub ffi_json_stub length search_stub
        state_stub
      ≡ some (r, s'))
    × (dispose backend_stub ffi_json_stub length r s' ≡ some (tt, t))
    × (t.heap ≡ state_stub.heap)
respond-dispose_example =
    respond-dispose backend_stub ffi_json_stub length (λ content. omega arith) search_stub
      state_stub IsFresh-state_stub (9, refl)

raw_upsert_input-map_upsert_input_example :
    raw_upsert_input
      (some (utf8 "docs"))
      VldbLancedbFfiInputFormat.json_rows
      (some (1 ∷ []))
      1
      (some (map (λ k. some (utf8 k)) ("id" ∷ [])))
      1
    ≡ map_upsert_input
        (record { table_name = "docs"; input_format = " JSON "; key_columns = "id" ∷ [] })
        (some (1 ∷ []))
        1
unfolding trim trim_start trim_end cons_unless_blank is_whitespace parse_input_format
    input_format_named to_ascii_lowercase to_lower parse_ffi_input_format
raw_upsert_input-map_upsert_input_example =
    raw_upsert_input-map_upsert_input "docs" " JSON " VldbLancedbFfiInputFormat.json_rows
      ("id" ∷ []) (some (1 ∷ [])) 1 refl (refl, tt) refl

-- A job that counts, and one that panics
abbrev counting : Job ℕ ℕ
counting w = (some (ok w), suc w)

abbrev panicking : Job ℕ ℕ
panicking w = (none, w)

-- Three jobs are sent, of which the worker has taken two.
abbrev queue_stub : Queue ℕ ℕ
queue_stub =
    send_job 3 counting (work (work (send_job 2 panicking (send_job 1 counting (idle_worker 0)))))

reach_stub : Reach (idle_worker 0) queue_stub
reach_stub =
    Reach.next
      (Reach.next
        (Reach.next
          (Reach.next (Reach.next Reach.here (sends 1 counting (idle_worker 0)))
            (sends 2 panicking (send_job 1 counting (idle_worker 0))))
          (works _))
        (works _))
      (sends 3 counting _)

work_turns-run_jobs_example :
    ((work_turns 1 queue_stub).pending ≡ [])
    × (((work_turns 1 queue_stub).answers, (work_turns 1 queue_stub).world)
        ≡ run_jobs queue_stub.sent 0)
unfolding work take_job send_job idle_worker
work_turns-run_jobs_example = work_turns-run_jobs 0 queue_stub 1 reach_stub (omega arith)

abbrev done_stub : Queue ℕ ℕ
done_stub = work queue_stub

Reach-block_on_each_example :
    (s' : Ffi ℕ ℕ ℕ) × (block_on_each done_stub.sent state_stub ≡ some (done_stub.answers, s'))
    × (s'.world ≡ done_stub.world)
unfolding work take_job send_job idle_worker
Reach-block_on_each_example =
    Reach-block_on_each state_stub done_stub refl (Reach.next reach_stub (works queue_stub)) refl
