-- ===== src/Logging/Named.antt =====
-- src/logging.rs: the file that a logger writes to, over all that it logs.
use vldb_lancedb.Logging.{
  LogHost, new_logger, ServiceLogger, open_log_file_state, log, rotate, log_to_file, LoggingConfig,
  LogFileState, logger_in, opened, logger_with, without_file, rotated, build_dated_log_path,
}
use vldb_lancedb.Prelude.{
  refl, String, ◌≡◌, Bool, if◌then◌else◌, Result, Option, some, ok, not, err, true, sym, ◌∙◌, none,
  false, ok-injective, Bool-cases, inl, ◌=ₛ◌, inr,
}

module _ (H : LogHost) where
  -- The logger writes to a file that was opened at the path that is named for the day of its state.
  abbrev pub IsNamed : LoggingConfig → Option (LogFileState H) → Type 0
  IsNamed config none = Unit
  IsNamed config (some state) =
      (state.path ≡ build_dated_log_path config.log_dir config.log_file_name state.date_key)
      × ((w : H.World) × ((H.open_append state.path w).0 ≡ ok state.file))

  -- What a logger becomes by logging; between two lines the world may change in any way.
  pub data Logs (logger : ServiceLogger H) : ServiceLogger H → Type 0 where
    here : Logs logger logger
    next :
        {l : ServiceLogger H}
        → Logs logger l
        → (category message : String) (w : H.World) → Logs logger (log H category message l w).0

  opened_lem :
      (path date_key : String) (o : Result H.File String × H.World) (state : LogFileState H)
      → (opened H path date_key o).0 ≡ ok state
      → (state.path ≡ path) × (o.0 ≡ ok state.file) × (state.date_key ≡ date_key)
  opened_lem path date_key (ok file, w) state h = rw (sym (ok-injective h)) (refl, refl, refl)
  opened_lem path date_key (err error, w) state h = cc

  IsNamed-open_log_file_state :
      (config : LoggingConfig) (date_key : String) (w : H.World) (state : LogFileState H)
      → (open_log_file_state H config.log_dir config.log_file_name date_key w).0 ≡ ok state
      → IsNamed config (some state)
  unfolding open_log_file_state
  IsNamed-open_log_file_state config date_key w state h =
      let (path, file, key) = opened_lem _ _ (H.open_append _ w) state h in
      (rw (path, key) refl, (w, rw path file))

  pub open_log_file_state-date_key :
      (config : LoggingConfig) (date_key : String) (w : H.World) (state : LogFileState H)
      → (open_log_file_state H config.log_dir config.log_file_name date_key w).0 ≡ ok state
      → state.date_key ≡ date_key
  unfolding open_log_file_state
  open_log_file_state-date_key config date_key w state h =
      let (path, file, key) = opened_lem _ _ (H.open_append _ w) state h in key

  pub IsNamed-rotate :
      (config : LoggingConfig) (state : LogFileState H) (w : H.World)
      → IsNamed config (some state)
      → IsNamed config (some (rotate H config state w).0)
  unfolding rotate
  IsNamed-rotate config state w h = elim (Bool-cases (state.date_key =ₛ H.current_log_date w)) [
    | inl e ↦ rw e h
    | inr e ↦ rw e (go _ (IsNamed-open_log_file_state config (H.current_log_date w) w))
  ]
    where
      go :
          (o : Result (LogFileState H) String × H.World)
          → ((next : LogFileState H) → o.0 ≡ ok next → IsNamed config (some next))
          → IsNamed config (some (rotated H state o).0)
      go (ok latest, w') k = k latest refl
      go (err error, w') k = h

  IsNamed-log_to_file :
      (line : String) (logger : ServiceLogger H) (state : Option (LogFileState H)) (w : H.World)
      → logger.file_state ≡ state
      → IsNamed logger.config state
      → IsNamed
          (log_to_file H line logger state w).0.config
          (log_to_file H line logger state w).0.file_state
        × ((log_to_file H line logger state w).0.config ≡ logger.config)
  unfolding log_to_file
  IsNamed-log_to_file line logger none w e h = (rw e tt, refl)
  IsNamed-log_to_file line logger (some state) w e h =
      (IsNamed-rotate logger.config state w h, refl)

  IsNamed-log :
      (category message : String) (logger : ServiceLogger H) (w : H.World)
      → IsNamed logger.config logger.file_state
      → IsNamed
          (log H category message logger w).0.config
          (log H category message logger w).0.file_state
        × ((log H category message logger w).0.config ≡ logger.config)
  unfolding log
  IsNamed-log category message logger w h =
      go (not logger.config.enabled) _ (IsNamed-log_to_file _ logger logger.file_state _ refl h)
    where
      go :
          (disabled : Bool) (logged : ServiceLogger H × H.World)
          → IsNamed logged.0.config logged.0.file_state × (logged.0.config ≡ logger.config)
          → IsNamed
              (if disabled then (logger, w) else logged).0.config
              (if disabled then (logger, w) else logged).0.file_state
            × ((if disabled then (logger, w) else logged).0.config ≡ logger.config)
      go true logged k = (h, refl)
      go false logged k = k

  -- The result of `ServiceLogger::new`, if there is one, has the configuration and a file that is named so.
  abbrev IsStarted : LoggingConfig → Result (ServiceLogger H) String → Type 0
  IsStarted config (ok logger) = IsNamed logger.config logger.file_state × (logger.config ≡ config)
  IsStarted config (err error) = Unit

  IsStarted-logger_with :
      (name : String) (config : LoggingConfig) (o : Result (LogFileState H) String × H.World)
      → ((state : LogFileState H) → o.0 ≡ ok state → IsNamed config (some state))
      → IsStarted config (logger_with H name config o).0
  IsStarted-logger_with name config (ok state, w) k = (k state refl, refl)
  IsStarted-logger_with name config (err error, w) k = tt

  IsStarted-logger_in :
      (name : String) (config : LoggingConfig) (o : Result (Unit {0}) String × H.World)
      → IsStarted config (logger_in H name config o).0
  IsStarted-logger_in name config (ok _, w) =
      IsStarted-logger_with name config _
        (IsNamed-open_log_file_state config (H.current_log_date w) w)
  IsStarted-logger_in name config (err error, w) = tt

  IsStarted-new_logger :
      (name : String) (config : LoggingConfig) (w : H.World)
      → IsStarted config (new_logger H name config w).0
  unfolding new_logger
  IsStarted-new_logger name config w =
      go (not config.enabled) config.file_enabled _ (IsStarted-logger_in name config _)
    where
      go :
          (disabled file : Bool) (o : Result (ServiceLogger H) String × H.World)
          → IsStarted config o.0
          → IsStarted config
              (if disabled
                then (ok (without_file H name config), w)
                else if file
                then o
                else (ok (without_file H name config), w)).0
      go true file o k = (tt, refl)
      go false true o k = k
      go false false o k = (tt, refl)

  -- Whatever is logged, and however the world and its date change between the lines, the logger writes to
  -- a file that was opened at the path where the configuration that it was made with puts the file of its day.
  pub IsNamed-Logs :
      (name : String) (config : LoggingConfig) (w : H.World) (first logger : ServiceLogger H)
      → (new_logger H name config w).0 ≡ ok first
      → Logs first logger
      → IsNamed logger.config logger.file_state × (logger.config ≡ config)
  IsNamed-Logs name config w first logger h here = rw h at (IsStarted-new_logger name config w)
  IsNamed-Logs name config w first logger h (next before category message w') =
      let (named, same) = IsNamed-Logs name config w first _ h before in
      let (named', same') = IsNamed-log category message _ w' named in (named', same' ∙ same)
