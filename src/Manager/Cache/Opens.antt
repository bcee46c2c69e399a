-- ===== src/Manager/Cache/Opens.antt =====
-- src/manager.rs: `open_named` by any number of requests at once. A request that misses waits for its
-- connection; meanwhile others may look, miss the same key and connect too.
use vldb_lancedb.Prelude.Dict.{lookup, lookup-insert}
use vldb_lancedb.Manager.{
  database_path_for_name, DatabaseRuntimeConfig, normalize_database_key, BoxError,
}
use vldb_lancedb.External.Storage.{Storage}
use vldb_lancedb.Manager.Cache.{
  look, enter, entry_or_insert, DatabaseManager, look_up, new_manager, cached, missing,
  open_connection,
}
use vldb_lancedb.Prelude.{
  String, Option, List, All, ◌≡◌, ok, some, [], refl, arith, ◌∷◌, none, >>=-eq-ok, eq_iff, ◌++◌,
  err, ap,
}

pub record System (Connection World : Type 0) : Type 0 where
  pub manager : DatabaseManager Connection
  pub world : World
  pub waiting : List (String × String)
  pub connected : List (String × Connection)
  pub answers : List (String × Connection)

module _ {Connection : Type 0} (S : Storage Connection) where
  abbrev pub new_system : DatabaseRuntimeConfig → S.World → System Connection S.World
  new_system config world = record {
    manager = new_manager config;
    world = world;
    waiting = [];
    connected = [];
    answers = [];
  }

  -- The parts of `open_named`, each of one request, in any order
  pub data Step (s : System Connection S.World) : System Connection S.World → Type 0 where
    hits :
        (database_name : Option String) (connection : Connection)
        → look s.manager database_name ≡ ok (cached connection)
        → Step s
            (record s { answers = (normalize_database_key database_name, connection) ∷ s.answers })
    misses :
        (database_name : Option String) (database_key target_path : String)
        → look s.manager database_name ≡ ok (missing database_key target_path)
        → Step s (record s { waiting = (database_key, target_path) ∷ s.waiting })
    connects :
        (front : List (String × String)) (database_key target_path : String)
        (back : List (String × String)) (connection : Connection) (world : S.World)
        → s.waiting ≡ front ++ ((database_key, target_path) ∷ back)
        → open_connection S s.manager.config target_path s.world ≡ (ok connection, world)
        → Step s (record s {
          world = world;
          waiting = front ++ back;
          connected = (database_key, connection) ∷ s.connected;
        })
    fails :
        (front : List (String × String)) (database_key target_path : String)
        (back : List (String × String)) (e : BoxError) (world : S.World)
        → s.waiting ≡ front ++ ((database_key, target_path) ∷ back)
        → open_connection S s.manager.config target_path s.world ≡ (err e, world)
        → Step s (record s { world = world; waiting = front ++ back })
    enters :
        (front : List (String × Connection)) (database_key : String) (connection : Connection)
        (back : List (String × Connection))
        → s.connected ≡ front ++ ((database_key, connection) ∷ back)
        → Step s (record s {
          manager = (enter database_key connection s.manager).1;
          connected = front ++ back;
          answers = (database_key, (enter database_key connection s.manager).0) ∷ s.answers;
        })

  pub data Reach (s : System Connection S.World) : System Connection S.World → Type 0 where
    start : Reach s s
    later : {t u : System Connection S.World} → Reach s t → Step t u → Reach s u

module _ {Connection : Type 0} where
  -- An answer is the connection that the cache holds for its key.
  abbrev IsStored : DatabaseManager Connection → String × Connection → Type 0
  IsStored m (database_key, connection) = lookup database_key m.connections ≡ some connection

  entry_or_insert_stored :
      (key : String) (c : Connection) (m : DatabaseManager Connection) (found : Option Connection)
      → lookup key m.connections ≡ found
      → lookup key (entry_or_insert key c m found).1.connections
        ≡ some (entry_or_insert key c m found).0
  unfolding entry_or_insert
  entry_or_insert_stored key c m (some entry) e = e
  entry_or_insert_stored key c m none e =
      ground (arith, lookup-insert key key c m.connections, eq_iff key key)

  entry_or_insert_keeps :
      (key j : String) (c d : Connection) (m : DatabaseManager Connection)
      (found : Option Connection)
      → lookup key m.connections ≡ found
      → lookup j m.connections ≡ some d
      → lookup j (entry_or_insert key c m found).1.connections ≡ some d
  unfolding entry_or_insert
  entry_or_insert_keeps key j c d m (some entry) e h = h
  entry_or_insert_keeps key j c d m none e h =
      ground (arith, lookup-insert key j c m.connections, eq_iff key j)

  pub enter_stored :
      (key : String) (c : Connection) (m : DatabaseManager Connection)
      → lookup key (enter key c m).1.connections ≡ some (enter key c m).0
  unfolding enter
  enter_stored key c m = entry_or_insert_stored key c m _ refl

  -- A connection that is in the cache is never replaced.
  pub enter_keeps :
      (key j : String) (c d : Connection) (m : DatabaseManager Connection)
      → lookup j m.connections ≡ some d
      → lookup j (enter key c m).1.connections ≡ some d
  unfolding enter
  enter_keeps key j c d m h = entry_or_insert_keeps key j c d m _ refl h

  All-enter_keeps :
      (key : String) (c : Connection) (m : DatabaseManager Connection)
      (answers : List (String × Connection))
      → All (IsStored m) answers
      → All (IsStored (enter key c m).1) answers
  All-enter_keeps key c m [] h = tt
  All-enter_keeps key c m ((j, d) ∷ answers) h =
      (enter_keeps key j c d m h.0, All-enter_keeps key c m answers h.1)

  look_up-cached :
      (key path : String) (found : Option Connection) (c : Connection)
      → look_up key path found ≡ cached c
      → found ≡ some c
  unfolding look_up
  look_up-cached key path none c h = cc
  look_up-cached key path (some d) c h = ground arith

  look_up-missing :
      (key path k p : String) (found : Option Connection)
      → look_up key path found ≡ missing k p
      → k ≡ key
  unfolding look_up
  look_up-missing key path k p none h = ground arith
  look_up-missing key path k p (some d) h = cc

  -- A request that misses waits under the key of its name.
  pub look-missing :
      (m : DatabaseManager Connection) (name : Option String) (key path : String)
      → look m name ≡ ok (missing key path)
      → key ≡ normalize_database_key name
  unfolding look
  look-missing m name key path h =
      let (p, found, h1) = >>=-eq-ok (database_path_for_name m.config name) _ h in
      look_up-missing (normalize_database_key name) p key path
        (lookup (normalize_database_key name) m.connections) (ground arith)

  pub look-cached :
      (m : DatabaseManager Connection) (name : Option String) (c : Connection)
      → look m name ≡ ok (cached c)
      → lookup (normalize_database_key name) m.connections ≡ some c
  unfolding look
  look-cached m name c h =
      let (path, found, h1) = >>=-eq-ok (database_path_for_name m.config name) _ h in
      look_up-cached (normalize_database_key name) path
        (lookup (normalize_database_key name) m.connections) c (ground arith)

module _ {Connection : Type 0} (S : Storage Connection) where
  Step-IsStored :
      {s t : System Connection S.World}
      → Step S s t
      → All (IsStored s.manager) s.answers
      → All (IsStored t.manager) t.answers
  Step-IsStored {s} (hits name c h) v = (look-cached s.manager name c h, v)
  Step-IsStored (misses name key path h) v = v
  Step-IsStored (connects front key path back c w e h) v = v
  Step-IsStored (fails front key path back x w e h) v = v
  Step-IsStored {s} (enters front key c back e) v =
      (enter_stored key c s.manager, All-enter_keeps key c s.manager s.answers v)

  pub Reach-IsStored :
      {config : DatabaseRuntimeConfig} {world : S.World} {s : System Connection S.World}
      → Reach S (new_system S config world) s
      → All (IsStored s.manager) s.answers
  Reach-IsStored start = tt
  Reach-IsStored (later r st) = Step-IsStored st (Reach-IsStored r)

module _ {Connection : Type 0} where
  -- Two answers for one key are one connection.
  abbrev pub Agrees : String × Connection → String × Connection → Type 0
  Agrees (key, c) (j, d) = key ≡ j → c ≡ d

  abbrev pub AllAgree : List (String × Connection) → Type 0
  AllAgree [] = Unit
  AllAgree (a ∷ answers) = All (Agrees a) answers × AllAgree answers

  All-Agrees :
      (m : DatabaseManager Connection) (key : String) (c : Connection)
      (answers : List (String × Connection))
      → lookup key m.connections ≡ some c
      → All (IsStored m) answers
      → All (Agrees (key, c)) answers
  All-Agrees m key c [] h hs = tt
  All-Agrees m key c ((j, d) ∷ answers) h hs = (
    λ same. cc (h, hs.0, ap (λ k. lookup k m.connections) same),
    All-Agrees m key c answers h hs.1,
  )

  AllAgree-of :
      (m : DatabaseManager Connection) (answers : List (String × Connection))
      → All (IsStored m) answers
      → AllAgree answers
  AllAgree-of m [] h = tt
  AllAgree-of m ((key, c) ∷ answers) h =
      (All-Agrees m key c answers h.0 h.1, AllAgree-of m answers h.1)

-- However opens are interleaved, all that succeed for one key have been answered with the same
-- connection, though several of them may have connected.
pub Reach-AllAgree :
    {Connection : Type 0} (S : Storage Connection) (config : DatabaseRuntimeConfig)
    {world : S.World} {s : System Connection S.World}
    → Reach S (new_system S config world) s
    → AllAgree s.answers
Reach-AllAgree S config {s = s} r = AllAgree-of s.manager s.answers (Reach-IsStored S r)
