-- ===== src/Service/Log.antt =====
-- src/service.rs: the log of the requests. A log is the list of what the logger was given, newest first.
-- The texts that Rust's Debug and the socket address display come from outside.
use vldb_lancedb.Logging.{LoggingConfig}
use vldb_lancedb.Text.Format.{show}
use vldb_lancedb.Service.{Code, Status, InputFormat, OutputFormat}
use vldb_lancedb.Prelude.{
  Bool, String, ℕ, Option, List, some, ◌+◌, if◌then◌else◌, ◌%◌, none, ◌<>◌, not, ◌^◌, ◌||◌, ltb,
  ◌∷◌,
}

pub record LogEntry : Type 0 where
  pub level : String
  pub line : String

pub record Display : Type 0 where
  pub debug_code : Code → String
  pub debug_timeout : ℕ → String
  pub debug_input_format : InputFormat → String
  pub debug_output_format : OutputFormat → String

pub record RequestLogContext : Type 0 where
  pub request_id : ℕ
  pub operation : String
  pub remote_addr : String
  pub summary : String
  pub request_log_enabled : Bool
  pub slow_request_log_enabled : Bool
  pub slow_request_threshold : ℕ
  pub include_request_details_in_slow_log : Bool

abbrev or_unknown : Option String → String
or_unknown none = "unknown"
or_unknown (some addr) = addr

-- The second result is the next number of the counter of requests, which wraps around.
unfoldable pub build_request_context :
    LoggingConfig → String → Option String → String → ℕ → RequestLogContext × ℕ
build_request_context logging operation remote_addr summary next_request_id = (
  record {
    request_id = next_request_id;
    operation = operation;
    remote_addr = or_unknown remote_addr;
    summary = summary;
    request_log_enabled = logging.request_log_enabled;
    slow_request_log_enabled = logging.slow_request_log_enabled;
    slow_request_threshold = logging.slow_request_threshold_ms;
    include_request_details_in_slow_log = logging.include_request_details_in_slow_log;
  },
  (next_request_id + 1) % 2 ^ 64,
)

unfoldable pub log_request_started : RequestLogContext → List LogEntry → List LogEntry
log_request_started context log =
    if not context.request_log_enabled
    then log
    else record {
      level = "start";
      line =
          "request_id="
          <> show context.request_id
          <> " op="
          <> context.operation
          <> " remote="
          <> context.remote_addr
          <> " summary="
          <> context.summary;
    }
      ∷ log

unfoldable pub maybe_log_slow_request :
    RequestLogContext → ℕ → String → String → List LogEntry → List LogEntry
maybe_log_slow_request context elapsed final_state detail log =
    if not context.slow_request_log_enabled || ltb elapsed context.slow_request_threshold
    then log
    else record {
      level = "slow_request";
      line =
          "request_id="
          <> show context.request_id
          <> " op="
          <> context.operation
          <> " elapsed_ms="
          <> show elapsed
          <> " threshold_ms="
          <> show context.slow_request_threshold
          <> " remote="
          <> context.remote_addr
          <> " state="
          <> final_state
          <> " detail="
          <> detail
          <> " summary="
          <> (if context.include_request_details_in_slow_log
              then context.summary
              else context.operation);
    }
      ∷ log

unfoldable pub log_request_succeeded :
    RequestLogContext → ℕ → String → List LogEntry → List LogEntry
unfolding maybe_log_slow_request
log_request_succeeded context elapsed detail log =
    maybe_log_slow_request context elapsed "completed" detail (
      if context.request_log_enabled
      then record {
        level = "ok";
        line =
            "request_id="
            <> show context.request_id
            <> " op="
            <> context.operation
            <> " elapsed_ms="
            <> show elapsed
            <> " remote="
            <> context.remote_addr
            <> " detail="
            <> detail
            <> " summary="
            <> context.summary;
      }
        ∷ log
      else log)

unfoldable pub log_request_failed :
    Display → RequestLogContext → ℕ → Status → List LogEntry → List LogEntry
unfolding maybe_log_slow_request
log_request_failed display context elapsed status log =
    maybe_log_slow_request context elapsed "failed" status.message (
      record {
        level = "error";
        line =
            "request_id="
            <> show context.request_id
            <> " op="
            <> context.operation
            <> " elapsed_ms="
            <> show elapsed
            <> " remote="
            <> context.remote_addr
            <> " code="
            <> display.debug_code status.code
            <> " message="
            <> status.message
            <> " summary="
            <> context.summary;
      }
      ∷ log)
