-- ===== src/Main/Launched.antt =====
-- src/main.rs: the server that serves, and the configuration that it was made from.
use vldb_lancedb.Runtime.Engines.{engine_on-eq-ok}
use vldb_lancedb.Engine.Options.{LanceDbEngineOptions, permits}
use vldb_lancedb.Logging.Named.{IsNamed, Logs, IsNamed-Logs}
use vldb_lancedb.Manager.{
  normalize_database_key, BoxError, filter_name, other_error, path_of_normalized,
  DatabaseRuntimeConfig, database_path_for_name, concurrent_write_warning,
}
use vldb_lancedb.Config.Sound.{IsSound, IsSound-load}
use vldb_lancedb.Config.Absolute.{IsRooted}
use vldb_lancedb.Runtime.{
  LanceDbEngine, new_engine, open_named_engine, OpenOutcome, runtime_of, open_default_engine, Arcs,
}
use vldb_lancedb.Prelude.Dict.{lookup}
use vldb_lancedb.Config.Load.{load}
use vldb_lancedb.Manager.Cache.{
  open_named, look, look_up, open_connection, new_manager, finish, enter, entry_or_insert,
}
use vldb_lancedb.Main.{
  Machine, bind_address, first_address, banner, Launch, bind_text, launch_at, engine_options_for,
  async_main, launch_with, launch_on, launch_from, warned,
}
use vldb_lancedb.External.Storage.{Storage}
use vldb_lancedb.Logging.{LogHost, ServiceLogger, new_logger}
use vldb_lancedb.Config.{Environment, ResolvedConfig}
use vldb_lancedb.Prelude.{
  refl, String, Result, List, ◌≡◌, ok, ◌∷◌, ap, >>=-eq-ok, map_err, ok-injective, err, [],
  map_err-eq-ok, sym, ◌∙◌, none, Option, some, max, arith,
}

module _ {Connection : Type 0} (env : Environment) (H : LogHost) (S : Storage Connection)
    (lookup_host : String → Result (List String) String) where
  -- `arcs` are the objects that there are after the launch.
  pub record IsLaunched (machine : Machine env H S lookup_host) (launch : Launch Connection H)
      (arcs : Arcs) (cfg : ResolvedConfig) : Type 0 where
    pub loaded : load env ≡ ok cfg
    pub sound : IsSound env cfg
    -- The engine is on the database of the configuration, with its number of requests at once.
    pub engine :
        (connection : Connection) × ((open_connection S cfg.runtime cfg.runtime.default_db_path
            machine.1).0
          ≡ ok connection)
        × (launch.engine ≡ (new_engine connection (engine_options_for cfg) machine.2).0)
    pub limit :
        (launch.engine.options.max_concurrent_requests ≡ cfg.max_concurrent_requests)
        × ((arcs.limiters launch.engine.concurrency_limiter).available
            ≡ max cfg.max_concurrent_requests 1)
    -- The logger has the configuration, and writes to the file that is named for its day.
    pub logger :
        IsNamed H launch.logger.config launch.logger.file_state
        × (launch.logger.config ≡ cfg.logging)
    pub request_timeout : launch.request_timeout ≡ cfg.grpc_request_timeout_ms
    pub addr :
        (others : List String) × (lookup_host (bind_text env H S lookup_host cfg)
          ≡ ok (launch.addr ∷ others))

  first_address-eq-ok :
      (text addr : String) (addrs : List String)
      → first_address env H S lookup_host text addrs ≡ ok addr
      → (others : List String) × (addrs ≡ addr ∷ others)
  unfolding first_address
  first_address-eq-ok text addr [] h = cc
  first_address-eq-ok text addr (first ∷ others) h = (others, ap (λ a. a ∷ others) (ok-injective h))

  bind_address-eq-ok :
      (cfg : ResolvedConfig) (addr : String)
      → bind_address env H S lookup_host cfg ≡ ok addr
      → (others : List String) × (lookup_host (bind_text env H S lookup_host cfg)
          ≡ ok (addr ∷ others))
  unfolding bind_address
  bind_address-eq-ok cfg addr h =
      let (addrs, named, h1) = >>=-eq-ok (map_err other_error (lookup_host _)) _ h in
      let (others, same) = first_address-eq-ok _ addr addrs h1 in
      (others, map_err-eq-ok _ _ _ named ∙ ap ok same)

  -- A database that is opened first is connected to at its path.
  open_named-eq-ok :
      (config : DatabaseRuntimeConfig) (w : S.World) (connection : Connection)
      → (open_named S (new_manager config) none w).0 ≡ ok connection
      → (open_connection S config config.default_db_path w).0 ≡ ok connection
  unfolding open_named look look_up lookup normalize_database_key filter_name database_path_for_name
      path_of_normalized enter entry_or_insert
  open_named-eq-ok config w connection h = go (open_connection S config config.default_db_path w) h
    where
      go :
          (o : Result Connection BoxError × S.World)
          → (finish S "default" (new_manager config) o).0 ≡ ok connection
          → o.0 ≡ ok connection
      go (ok c, w') h = h
      go (err e, w') h = cc

  launch_at-eq-ok :
      (cfg : ResolvedConfig) (logger : ServiceLogger H) (engine : LanceDbEngine Connection)
      (bound : Result String BoxError) (launch : Launch Connection H)
      → launch_at env H S lookup_host cfg logger engine bound ≡ ok launch
      → (launch.engine ≡ engine)
        × (launch.logger ≡ logger)
        × (launch.request_timeout ≡ cfg.grpc_request_timeout_ms)
        × (bound ≡ ok launch.addr)
  unfolding banner
  launch_at-eq-ok cfg logger engine (err e) launch h = cc
  launch_at-eq-ok cfg logger engine (ok addr) launch h =
      rw (sym (ok-injective h)) (refl, refl, refl, refl)

  open_default_engine-eq-ok :
      (config : DatabaseRuntimeConfig) (options : LanceDbEngineOptions) (w : S.World) (arcs : Arcs)
      (engine : LanceDbEngine Connection)
      → (open_default_engine S (runtime_of config options) w arcs).0 ≡ ok engine
      → (connection : Connection) × ((open_connection S config config.default_db_path w).0
          ≡ ok connection)
        × (engine ≡ (new_engine connection options arcs).0)
        × ((open_default_engine S (runtime_of config options) w arcs).3
            ≡ (new_engine connection options arcs).1)
  unfolding open_named_engine runtime_of
  open_default_engine-eq-ok config options w arcs engine h =
      let (opened, fresh, same, left) =
        engine_on-eq-ok S (runtime_of config options) arcs
          (open_named S (new_manager config) none w) engine h in
      (engine.db, open_named-eq-ok config w engine.db opened, fresh, left)

  Logs-warned :
      (warning : Option String) (first : ServiceLogger H) (w : H.World)
      → Logs H first (warned env H S lookup_host warning first w).0
  Logs-warned none first w = Logs.here
  Logs-warned (some warning) first w = Logs.next Logs.here "warning" warning _

  launch_on-eq-ok :
      (cfg : ResolvedConfig) (logger : ServiceLogger H) (w : H.World) (outcome : OpenOutcome S)
      (launch : Launch Connection H)
      → (launch_on env H S lookup_host cfg logger w outcome).0 ≡ ok launch
      → (outcome.0 ≡ ok launch.engine)
        × (launch.logger ≡ logger)
        × (launch.request_timeout ≡ cfg.grpc_request_timeout_ms)
        × (bind_address env H S lookup_host cfg ≡ ok launch.addr)
        × ((launch_on env H S lookup_host cfg logger w outcome).1.2 ≡ outcome.3)
  launch_on-eq-ok cfg logger w (ok engine, runtime, w', arcs) launch h =
      let (e, l, t, a) = launch_at-eq-ok cfg logger engine _ launch h in
      (ap ok (sym e), l, t, a, refl)
  launch_on-eq-ok cfg logger w (err e, runtime, w', arcs) launch h = cc

  IsLaunched-launch_with :
      (cfg : ResolvedConfig) (machine : Machine env H S lookup_host)
      (made : Result (ServiceLogger H) String × H.World) (launch : Launch Connection H)
      → load env ≡ ok cfg
      → IsSound env cfg
      → new_logger H "vldb-lancedb" cfg.logging machine.0 ≡ made
      → (launch_with env H S lookup_host cfg (machine.1, machine.2) made).0 ≡ ok launch
      → IsLaunched machine launch
          (launch_with env H S lookup_host cfg (machine.1, machine.2) made).1.2
          cfg
  unfolding new_engine permits
  IsLaunched-launch_with cfg machine (err error, w) launch loaded sound new h = absurd (cc h)
  IsLaunched-launch_with cfg machine (ok first, w) launch loaded sound new h =
      let (opened, l, t, a, after) = launch_on-eq-ok cfg _ _ _ launch h in
      let (connection, connected, fresh, left) =
        open_default_engine-eq-ok cfg.runtime (engine_options_for cfg) machine.1 machine.2
          launch.engine opened in
      record {
        loaded = loaded;
        sound = sound;
        engine = (connection, connected, fresh);
        limit = (rw fresh refl, rw (after, left, fresh) (ground arith));
        logger = rw l (
            IsNamed-Logs H "vldb-lancedb" cfg.logging machine.0 first _ (ap (λ r. r.0) new)
              (Logs-warned (concurrent_write_warning cfg.runtime) first w));
        request_timeout = t;
        addr = bind_address-eq-ok cfg launch.addr a;
      }

  -- Where the directories of the environment are absolute, a server that gets as far as serving has a
  -- configuration that was loaded and is sound, an engine on the database of that configuration with its
  -- limit of requests, a logger with its logging, its timeout, and the first address that its host and port name.
  pub IsLaunched-async_main :
      (machine : Machine env H S lookup_host) (launch : Launch Connection H)
      → IsRooted env
      → (async_main env H S lookup_host machine).0 ≡ ok launch
      → (cfg : ResolvedConfig) × IsLaunched machine launch
          (async_main env H S lookup_host machine).1.2
          cfg
  unfolding async_main
  IsLaunched-async_main machine launch rooted h = go (load env) refl h
    where
      go :
          (found : Result ResolvedConfig BoxError)
          → load env ≡ found
          → (launch_from env H S lookup_host machine found).0 ≡ ok launch
          → (cfg : ResolvedConfig) × IsLaunched machine launch
              (launch_from env H S lookup_host machine found).1.2
              cfg
      go (err e) same h = cc
      go (ok cfg) same h = (
        cfg,
        IsLaunched-launch_with cfg machine _ launch same (IsSound-load env cfg rooted same) refl h,
      )
