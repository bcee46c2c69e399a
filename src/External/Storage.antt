-- ===== src/External/Storage.antt =====
-- The file system and `lancedb::connect`, as src/manager.rs calls them: `World` is all that a call can
-- change. An error is given by the text that it displays.
use vldb_lancedb.Prelude.{ℕ, String, Option, Result}

pub record Storage (Connection : Type 0) : Type 1 where
  pub World : Type 0
  -- `tokio::fs::create_dir_all`
  pub create_dir_all : String → World → Result (Unit {0}) String × World
  -- `lancedb::connect(path)`, a read consistency interval in milliseconds if there is one, `execute`
  pub connect : String → Option ℕ → World → Result Connection String × World
