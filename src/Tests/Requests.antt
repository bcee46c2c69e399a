-- ===== src/Tests/Requests.antt =====
-- The handlers of the service on a delete, and the previews of its log.
use vldb_lancedb.Text.{trim, trim_start, trim_end, cons_unless_blank, is_whitespace}
use vldb_lancedb.Service.Refusals.{Rpc, Refuses, Refuses-IsInvalid}
use vldb_lancedb.Prelude.{ℕ, none, [], ◌≤◌, max, ◌+◌, inr, refl}
use vldb_lancedb.Tests.Stubs.{
  display_stub, state_stub, service_config_stub, json_stub, panic_stub, arrow_stub, lance_stub,
  options_stub,
}
use vldb_lancedb.Service.Preview.{IsLine, preview_text, count, preview_text-IsLine}
use vldb_lancedb.Service.Handlers.{ServiceState, Course}

abbrev service_state : ServiceState ℕ
service_state = record { engine = state_stub; log = []; next_request_id = 1 }

abbrev in_time : Course ℕ
in_time = record { elapsed = 20; dropped = none }

Refuses-IsInvalid_example :
    Refuses json_stub panic_stub arrow_stub lance_stub options_stub display_stub service_config_stub
      none
      (Rpc.delete_rows (record { table_name = "demo"; condition = " " }))
      in_time
      service_state
unfolding trim trim_start trim_end cons_unless_blank is_whitespace
Refuses-IsInvalid_example =
    Refuses-IsInvalid json_stub panic_stub arrow_stub lance_stub options_stub display_stub
      service_config_stub none (Rpc.delete_rows (record { table_name = "demo"; condition = " " }))
      in_time service_state (inr refl) (inr refl)

preview_text-IsLine_example :
    IsLine (preview_text "a\n b" 2) × (count (preview_text "a\n b" 2) ≤ max (2 + 3) 7)
preview_text-IsLine_example = preview_text-IsLine "a\n b" 2
