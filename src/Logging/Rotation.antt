-- ===== src/Logging/Rotation.antt =====
-- src/logging.rs: the day of the file that a logger writes to.
use vldb_lancedb.Logging.Named.{open_log_file_state-date_key, Logs, IsNamed-Logs, IsNamed-rotate}
use vldb_lancedb.Logging.{
  LogHost, ServiceLogger, open_log_file_state, log, rotate, log_to_file, LoggingConfig,
  LogFileState, log_line, rotated, new_logger, build_dated_log_path,
}
use vldb_lancedb.Prelude.{
  refl, String, ◌≡◌, Bool, if◌then◌else◌, Result, some, ok, not, err, true, ◌⊎◌, ◌∙◌, false,
  Bool-cases, ap, inl, ◌=ₛ◌, inr, eq_iff, sym,
}

module _ (H : LogHost) where
  -- The date when a line is written to the file: after it went to the standard error.
  unfoldable pub after_stderr : ServiceLogger H → String → String → H.World → H.World
  after_stderr logger category message w =
      if logger.config.stderr_enabled
      then H.eprint_line (log_line H logger category message w) w
      else w

  -- The file of the day cannot be opened.
  abbrev pub IsUnavailable : LoggingConfig → H.World → Type 0
  IsUnavailable config w =
      (error : String) × ((open_log_file_state H config.log_dir config.log_file_name
          (H.current_log_date w) w).0
        ≡ err error)

  rotate_lem :
      (config : LoggingConfig) (state : LogFileState H) (w : H.World)
      → ((rotate H config state w).0.date_key ≡ H.current_log_date w)
        ⊎ (((rotate H config state w).0 ≡ state) × IsUnavailable config w)
  unfolding rotate
  rotate_lem config state w = elim (Bool-cases (state.date_key =ₛ H.current_log_date w)) [
    | inl e ↦ rw e (inl ((eq_iff _ _).0 e))
    | inr e ↦ rw e (go _ refl)
  ]
    where
      go :
          (o : Result (LogFileState H) String × H.World)
          → open_log_file_state H config.log_dir config.log_file_name (H.current_log_date w) w ≡ o
          → ((rotated H state o).0.date_key ≡ H.current_log_date w)
            ⊎ (((rotated H state o).0 ≡ state) × IsUnavailable config w)
      go (ok latest, w') k =
          inl (open_log_file_state-date_key H config _ w latest (ap (λ r. r.0) k))
      go (err error, w') k = inr (refl, (error, ap (λ r. r.0) k))

  log-log_to_file :
      (category message : String) (logger : ServiceLogger H) (w : H.World)
      → logger.config.enabled ≡ true
      → log H category message logger w
        ≡ log_to_file H
            (log_line H logger category message w)
            logger
            logger.file_state
            (after_stderr logger category message w)
  unfolding log after_stderr
  log-log_to_file category message logger w enabled = go logger.config.enabled _ enabled
    where
      go :
          (enabled : Bool) (logged : ServiceLogger H × H.World)
          → enabled ≡ true
          → (if not enabled then (logger, w) else logged) ≡ logged
      go true logged h = refl
      go false logged h = cc

  -- A logger that was made by `new_logger` and has logged whatever it did, is enabled and has a file, writes
  -- the next line to one file. That file was opened at the path that the configuration and the day of its state
  -- name; its day is that of the line, and otherwise it is the file that the logger had before, and the file of
  -- the line's day cannot be opened.
  pub log-day :
      (name : String) (config : LoggingConfig) (w₀ : H.World) (first logger : ServiceLogger H)
      (state : LogFileState H) (category message : String) (w : H.World)
      → (new_logger H name config w₀).0 ≡ ok first
      → Logs H first logger
      → config.enabled ≡ true
      → logger.file_state ≡ some state
      → (current : LogFileState H) × ((log H category message logger w).0.file_state ≡ some current)
        × ((world : H.World) × ((log H category message logger w).1
              ≡ H.write_line current.file (log_line H logger category message w) world))
        × (current.path ≡ build_dated_log_path config.log_dir config.log_file_name current.date_key)
        × ((opening : H.World) × ((H.open_append current.path opening).0 ≡ ok current.file))
        × ((current.date_key ≡ H.current_log_date (after_stderr logger category message w))
            ⊎ ((current ≡ state) × IsUnavailable config (after_stderr logger category message w)))
  unfolding log_to_file
  log-day name config w₀ first logger state category message w made logs enabled h =
      let (named, same) = IsNamed-Logs H name config w₀ first logger made logs in
      let written =
        log-log_to_file category message logger w (rw same enabled)
        ∙ ap
            (λ file_state.
              log_to_file H (log_line H logger category message w) logger file_state
                (after_stderr logger category message w))
            h in
      let (path, file) = IsNamed-rotate H logger.config state later (rw h at named) in
      rw written (
        current,
        refl,
        (_, refl),
        path ∙ ap (λ c. build_dated_log_path c.log_dir c.log_file_name current.date_key) same,
        file,
        elim (rotate_lem logger.config state later) [
          | inl today ↦ inl today
          | inr (kept, (error, failed)) ↦ inr (
            kept,
            (
              error,
              ap
                    (λ c.
                      (open_log_file_state H c.log_dir c.log_file_name (H.current_log_date later)
                        later).0)
                    (sym same)
                  ∙ failed,
            ),
          )
        ],
      )
    where
      later : H.World
      later = after_stderr logger category message w

      current : LogFileState H
      current = (rotate H logger.config state later).0
