-- ===== src/Config/Valid.antt =====
-- src/config.rs: the configurations that `validate_config` accepts.
use vldb_lancedb.Manager.{BoxError}
use vldb_lancedb.Config.{validate_config, Config, IsValid}
use vldb_lancedb.Prelude.{
  refl, Bool, ℕ, ◌&&◌, ◌==◌, ◌≢◌, ◌≡◌, Result, ok, if◌then◌else◌, true, false, err, ◌↔◌, arith,
}

passed :
    (refused : Bool) (e : BoxError) (rest : Result (Unit {0}) BoxError)
    → (if refused then err e else rest) ≡ ok tt
    → (refused ≡ false) × (rest ≡ ok tt)
passed true e rest h = cc
passed false e rest h = (refl, h)

nonzero : {n : ℕ} → n ≢ 0 → (n == 0) ≡ false
nonzero h = ground (arith, h)

positive : (n : ℕ) → (n == 0) ≡ false → n ≢ 0
positive n h = ground (arith, h)

unblank : (enabled blank : Bool) → (enabled && blank) ≡ false → enabled ≡ true → blank ≡ false
unblank true blank h e = h
unblank false blank h e = cc

named :
    (enabled blank : Bool) (e : BoxError) (done : Result (Unit {0}) BoxError)
    → (enabled ≡ true → blank ≡ false)
    → (if enabled && blank then err e else done) ≡ done
named true blank e done h = rw (h refl) refl
named false blank e done h = refl

-- A configuration is accepted exactly if it has a host, a port, a database path, a length for previews, a
-- threshold for slow requests and, with file logging, a file name; a text must be more than blanks.
pub validate_config_iff : (config : Config) → (validate_config config ≡ ok tt) ↔ IsValid config
unfolding validate_config
validate_config_iff config = (
  λ h.
      let (host, h1) = passed _ _ _ h in
      let (port, h2) = passed _ _ _ h1 in
      let (db_path, h3) = passed _ _ _ h2 in
      let (preview, h4) = passed _ _ _ h3 in
      let (threshold, h5) = passed _ _ _ h4 in
      let (name, done) = passed _ _ _ h5 in
      record {
        host = host;
        port = positive _ port;
        db_path = db_path;
        preview = positive _ preview;
        threshold = positive _ threshold;
        file_name = unblank _ _ name;
      },
  λ v.
      rw (v.host, nonzero v.port, v.db_path, nonzero v.preview, nonzero v.threshold)
        (named config.logging.file_enabled _ _ _ v.file_name),
)
