-- ===== src/Main.antt =====
-- src/main.rs: `async_main`, from the configuration to the server that serves. The workers of the tokio runtime
-- and the server itself, of tonic, are outside. `lookup_host` gives the addresses that a text names.
pub mod Launched
use vldb_lancedb.Text.Format.{show}
use vldb_lancedb.Config.Load.{load}
use vldb_lancedb.Manager.{BoxError, other_error, concurrent_write_warning}
use vldb_lancedb.External.Storage.{Storage}
use vldb_lancedb.Engine.Options.{LanceDbEngineOptions, default_options}
use vldb_lancedb.Runtime.{LanceDbEngine, OpenOutcome, open_default_engine, runtime_of, Arcs}
use vldb_lancedb.Config.{ResolvedConfig, Environment}
use vldb_lancedb.Prelude.{
  Bool, Option, ℕ, String, List, Result, some, ◌∷◌, ◌<>◌, if◌then◌else◌, ◌==◌, [], err, none, ok,
  ◌>>=◌, true, ◌++◌, map_err, false,
}
use vldb_lancedb.Logging.{LogHost, ServiceLogger, log, log_path, new_logger}

abbrev pub engine_options_for : ResolvedConfig → LanceDbEngineOptions
engine_options_for cfg = record default_options {
  max_concurrent_requests = cfg.max_concurrent_requests;
}

module _ (Connection : Type 0) (H : LogHost) where
  -- What the server is given, and what was printed before it serves
  pub record Launch : Type 0 where
    pub engine : LanceDbEngine Connection
    pub logger : ServiceLogger H
    pub request_timeout : Option ℕ
    pub addr : String
    pub printed : List String

abbrev source_line : Option String → String
source_line none = "using default config"
source_line (some source) = "using config file: " <> source

abbrev interval_line : Option ℕ → String
interval_line none = "lancedb read consistency interval: disabled"
interval_line (some ms) =
    if ms == 0
    then "lancedb read consistency interval: 0 ms (strong)"
    else "lancedb read consistency interval: " <> (show ms <> " ms")

abbrev log_lines : Bool → Option String → List String
log_lines enabled (some path) = ("request log file: " <> path) ∷ []
log_lines true none = "request log file: disabled" ∷ []
log_lines false none = []

abbrev timeout_line : Option ℕ → String
timeout_line none = "request timeout: disabled"
timeout_line (some ms) = "request timeout: " <> (show ms <> " ms")

unfoldable pub banner : ResolvedConfig → Option String → String → List String
banner cfg log_path addr =
    (source_line cfg.source
      ∷ (("lancedb uri: " <> cfg.runtime.default_db_path)
          ∷ (interval_line cfg.runtime.read_consistency_interval_ms ∷ [])))
    ++ (log_lines cfg.logging.enabled log_path
        ++ (("grpc listen: " <> addr)
            ∷ (timeout_line cfg.grpc_request_timeout_ms
                ∷ (("max concurrent requests: " <> show cfg.max_concurrent_requests) ∷ []))))

module _ {Connection : Type 0} (env : Environment) (H : LogHost) (S : Storage Connection)
    (lookup_host : String → Result (List String) String) where
  abbrev pub Machine : Type 0
  Machine = H.World × S.World × Arcs

  abbrev pub bind_text : ResolvedConfig → String
  bind_text cfg = cfg.host <> (":" <> show cfg.port)

  unfoldable pub first_address : String → List String → Result String BoxError
  first_address text [] = err (other_error ("failed to resolve bind address: " <> text))
  first_address text (addr ∷ addrs) = ok addr

  unfoldable pub bind_address : ResolvedConfig → Result String BoxError
  unfolding first_address
  bind_address cfg = do
    addrs ← map_err other_error (lookup_host (bind_text cfg))
    first_address (bind_text cfg) addrs

  abbrev pub warned : Option String → ServiceLogger H → H.World → ServiceLogger H × H.World
  warned none logger w = (logger, w)
  warned (some warning) logger w =
      log H "warning" warning logger (H.eprint_line ("warning: " <> warning) w)

  abbrev pub launch_at :
      ResolvedConfig
      → ServiceLogger H
      → LanceDbEngine Connection
      → Result String BoxError
      → Result (Launch Connection H) BoxError
  launch_at cfg logger engine (err e) = err e
  launch_at cfg logger engine (ok addr) = ok (record {
    engine = engine;
    logger = logger;
    request_timeout = cfg.grpc_request_timeout_ms;
    addr = addr;
    printed = banner cfg (log_path H logger) addr;
  })

  abbrev pub launch_on :
      ResolvedConfig
      → ServiceLogger H
      → H.World
      → OpenOutcome S
      → Result (Launch Connection H) BoxError × Machine
  launch_on cfg logger w (ok engine, runtime, w', arcs) =
      (launch_at cfg logger engine (bind_address cfg), (w, w', arcs))
  launch_on cfg logger w (err e, runtime, w', arcs) = (err e, (w, w', arcs))

  abbrev pub launch_with :
      ResolvedConfig
      → S.World × Arcs
      → Result (ServiceLogger H) String × H.World
      → Result (Launch Connection H) BoxError × Machine
  launch_with cfg (stored, arcs) (err error, w) = (err (other_error error), (w, stored, arcs))
  launch_with cfg (stored, arcs) (ok first, w) =
      let (logger, w') = warned (concurrent_write_warning cfg.runtime) first w in
      launch_on cfg logger w'
        (open_default_engine S (runtime_of cfg.runtime (engine_options_for cfg)) stored arcs)

  abbrev pub launch_from :
      Machine → Result ResolvedConfig BoxError → Result (Launch Connection H) BoxError × Machine
  launch_from machine (err e) = (err e, machine)
  launch_from (w, stored, arcs) (ok cfg) =
      launch_with cfg (stored, arcs) (new_logger H "vldb-lancedb" cfg.logging w)

  unfoldable pub async_main : Machine → Result (Launch Connection H) BoxError × Machine
  unfolding banner bind_address
  async_main machine = launch_from machine (load env)
