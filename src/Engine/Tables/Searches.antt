-- ===== src/Engine/Tables/Searches.antt =====
-- What a success of `vector_search` says, and the bounds of the limit that it passes on.
use vldb_lancedb.Engine.Exec.Inversion.{
  lift-eq-ok, after_refuse, after_permit, after, inside_read, pure-eq-ok, after_request, after_lift,
}
use vldb_lancedb.Engine.Exec.{EngineState}
use vldb_lancedb.Text.{is_empty, trim}
use vldb_lancedb.Engine.Schema.{Schema}
use vldb_lancedb.Engine.Encode.{
  normalize_output_format, encode_batches_as_json, encode_batches_as_arrow_ipc, count_rows,
}
use vldb_lancedb.Types.{LanceDbSearchInput, LanceDbOutputFormat, LanceDbSearchResult}
use vldb_lancedb.External.Lance.{Lance, VectorQuery}
use vldb_lancedb.Prelude.{
  ◌<◌, ℕ, ◌↔◌, ◌≤◌, max, arith, ◌≢◌, List, ◌≡◌, false, ok, is_nil, String, map_err-eq-ok, refl,
  Option, some, true, none,
}
use vldb_lancedb.External.Arrow.{Arrow}
use vldb_lancedb.Engine.Options.{LanceDbEngineOptions}
use vldb_lancedb.Engine.Error.{LanceDbEngineError}
use vldb_lancedb.Engine.Tables.{
  non_blank, effective_limit, vector_search, encode_as, search_locked, build_query,
}
use vldb_lancedb.External.SerdeJson.{SerdeJson}

-- The limit that a search is to pass on for a limit that was asked for: a limit of 0 asks for 10, and any
-- other is kept below the maximum and is otherwise left as it is.
pub record IsLimit (options : LanceDbEngineOptions) (limit n : ℕ) : Type 0 where
  pub zero_limit : limit ≡ 0 → n ≡ 10
  pub small_limit : limit ≢ 0 → limit ≤ options.max_search_limit → n ≡ limit
  pub large_limit : options.max_search_limit < limit → n ≡ options.max_search_limit

-- A limit of 0 is passed on as 10, any other as the smaller of itself and `max_search_limit`; so what is
-- passed on is never 0 unless the maximum is, and never above the larger of 10 and the maximum.
pub effective_limit_bounds :
    (options : LanceDbEngineOptions) (limit : ℕ)
    → IsLimit options limit (effective_limit options limit)
      × (options.max_search_limit ≢ 0 → effective_limit options limit ≢ 0)
      × (effective_limit options limit ≤ max 10 options.max_search_limit)
unfolding effective_limit
effective_limit_bounds options limit = (
  record { zero_limit = ground arith; small_limit = ground arith; large_limit = ground arith },
  ground arith,
  ground arith,
)

-- The limit that is passed on is above the configured maximum exactly for searches with limit 0 under a
-- maximum below 10.
pub effective_limit_above_max :
    (options : LanceDbEngineOptions) (limit : ℕ)
    → (options.max_search_limit < effective_limit options limit)
      ↔ ((limit ≡ 0) × (options.max_search_limit < 10))
unfolding effective_limit
effective_limit_above_max options limit = ground arith

-- The text is passed on without the blanks around it, and not at all if there is nothing else.
pub record IsTrimmed (text : String) (passed : Option String) : Type 0 where
  pub blank : is_empty (trim text) ≡ true → passed ≡ none
  pub filled : is_empty (trim text) ≡ false → passed ≡ some (trim text)

-- The query asks for what the input asks for.
pub record IsQuery {F32 : Type 0} (options : LanceDbEngineOptions) (input : LanceDbSearchInput F32)
    (query : VectorQuery F32) : Type 0 where
  pub nearest_to : query.nearest_to ≡ input.vector
  pub column : IsTrimmed input.vector_column query.column
  pub limit : (n : ℕ) × (query.limit ≡ some n) × IsLimit options input.limit n
  pub only_if : IsTrimmed input.filter query.only_if

IsTrimmed-non_blank : (text : String) → IsTrimmed text (non_blank text)
IsTrimmed-non_blank text = record { blank = λ h. rw h refl; filled = λ h. rw h refl }

IsQuery-build_query :
    {F32 : Type 0} (options : LanceDbEngineOptions) (input : LanceDbSearchInput F32)
    → IsQuery options input (build_query options input)
unfolding build_query
IsQuery-build_query options input = record {
  nearest_to = refl;
  column = IsTrimmed-non_blank input.vector_column;
  limit = (_, refl, (effective_limit_bounds options input.limit).0);
  only_if = IsTrimmed-non_blank input.filter;
}

-- The format that is reported for a format that was asked for
abbrev pub IsReported : LanceDbOutputFormat → LanceDbOutputFormat → Type 0
IsReported LanceDbOutputFormat.unspecified format = format ≡ LanceDbOutputFormat.arrow_ipc
IsReported LanceDbOutputFormat.arrow_ipc format = format ≡ LanceDbOutputFormat.arrow_ipc
IsReported LanceDbOutputFormat.json_rows format = format ≡ LanceDbOutputFormat.json_rows

IsReported-normalize_output_format :
    (format : LanceDbOutputFormat) → IsReported format (normalize_output_format format)
unfolding normalize_output_format
IsReported-normalize_output_format LanceDbOutputFormat.unspecified = refl
IsReported-normalize_output_format LanceDbOutputFormat.arrow_ipc = refl
IsReported-normalize_output_format LanceDbOutputFormat.json_rows = refl

module _ (J : SerdeJson) (panicked : LanceDbEngineError) (A : Arrow J.F32 J.F64)
    (L : Lance J.F32 A.RecordBatch) (options : LanceDbEngineOptions) where
  open A use {RecordBatch}
  open L use {Db, Table, Stream}

  -- The bytes of the answer are the encoding in the format that the answer names.
  abbrev pub IsEncoded : LanceDbOutputFormat → Schema → List RecordBatch → List ℕ → Type 0
  IsEncoded LanceDbOutputFormat.json_rows schema batches bytes =
      encode_batches_as_json J panicked A schema batches ≡ ok bytes
  IsEncoded LanceDbOutputFormat.arrow_ipc schema batches bytes =
      encode_batches_as_arrow_ipc A schema batches ≡ ok bytes
  IsEncoded LanceDbOutputFormat.unspecified schema batches bytes = ⊥

  pub record Found (input : LanceDbSearchInput J.F32) (r : LanceDbSearchResult) (before after : Db)
      : Type 0 where
    pub named : is_empty (trim input.table_name) ≡ false
    pub not_empty : is_nil input.vector ≡ false
    pub table : Table
    pub opened : Db
    pub opens : L.open_table (trim input.table_name) before ≡ (ok table, opened)
    pub fits : L.nearest_to table input.vector ≡ ok tt
    pub query : VectorQuery J.F32
    pub asks : IsQuery options input query
    pub schema : Schema
    pub planned : Db
    pub plans : L.output_schema table query opened ≡ (ok schema, planned)
    pub stream : Stream
    pub started : Db
    pub starts : L.execute table query planned ≡ (ok stream, started)
    pub batches : List RecordBatch
    pub collects : L.try_collect stream started ≡ (ok batches, after)
    pub rows_counted : r.rows ≡ count_rows A batches
    pub format : IsReported input.output_format r.format
    pub encoded : IsEncoded r.format schema batches r.bytes

  encode_as-IsEncoded :
      (format : LanceDbOutputFormat) (schema : Schema) (batches : List RecordBatch) (bytes : List ℕ)
      (s s' : EngineState Db)
      → encode_as J panicked A L options (normalize_output_format format) schema batches s
        ≡ (ok bytes, s')
      → IsEncoded (normalize_output_format format) schema batches bytes × (s.db ≡ s'.db)
  unfolding encode_as normalize_output_format
  encode_as-IsEncoded LanceDbOutputFormat.unspecified schema batches bytes s s' h =
      lift-eq-ok _ bytes s s' h
  encode_as-IsEncoded LanceDbOutputFormat.arrow_ipc schema batches bytes s s' h =
      lift-eq-ok _ bytes s s' h
  encode_as-IsEncoded LanceDbOutputFormat.json_rows schema batches bytes s s' h =
      lift-eq-ok _ bytes s s' h

  record Collected (input : LanceDbSearchInput J.F32) (name : String) (batches : List RecordBatch)
      (schema : Schema) (before after : Db) : Type 0 where
    table : Table
    opened : Db
    opens : L.open_table name before ≡ (ok table, opened)
    fits : L.nearest_to table input.vector ≡ ok tt
    planned : Db
    plans : L.output_schema table (build_query options input) opened ≡ (ok schema, planned)
    stream : Stream
    started : Db
    starts : L.execute table (build_query options input) planned ≡ (ok stream, started)
    collects : L.try_collect stream started ≡ (ok batches, after)

  search_locked-Collected :
      (input : LanceDbSearchInput J.F32) (name : String) (found : List RecordBatch × Schema)
      (s s' : EngineState Db)
      → search_locked J panicked A L options input name s ≡ (ok found, s')
      → Collected input name found.0 found.1 s.db s'.db
  unfolding search_locked
  search_locked-Collected input name found s s' h =
      after_request _ _ _ _ _ _ _ h λ table s1 opens h1. after_lift _ _ _ _ _ h1 λ u fits h2.
        after_request _ _ _ _ _ _ _ h2 λ schema s2 plans h3.
          after_request _ _ _ _ _ _ _ h3 λ stream s3 starts h4.
            after_request _ _ _ _ _ _ _ h4 λ batches s4 collects h5.
              let (pair, same) = pure-eq-ok (batches, schema) found s4 s' h5 in
              record {
                table = table;
                opened = s1.db;
                opens = opens;
                fits = map_err-eq-ok _ _ _ fits;
                planned = s2.db;
                plans = rw (← pair) plans;
                stream = stream;
                started = s3.db;
                starts = starts;
                collects = rw (← pair, ← same) collects;
              }

  -- A reported success of a search: the table's name and the vector are not empty; the table of the
  -- trimmed name was opened; one query for the vector, with the trimmed column and filter where they are more
  -- than blanks and with the limit that was asked for within its bounds, was planned, started and read to its
  -- end; the rows reported are those of the batches that came back; the format reported is the one that was
  -- asked for, Arrow IPC where none was, and the bytes are the encoding of those batches in that format.
  pub vector_search-Found :
      (input : LanceDbSearchInput J.F32) (r : LanceDbSearchResult) (s s' : EngineState Db)
      → vector_search J panicked A L options input s ≡ (ok r, s')
      → Found input r s.db s'.db
  unfolding vector_search search_locked
  vector_search-Found input r s s' h = after_refuse _ _ _ _ _ _ h λ named h1.
      after_refuse _ _ _ _ _ _ h1 λ not_empty h2. after_permit _ _ _ _ h2 λ s1 same1 h3.
        after _ _ _ _ _ h3 λ (batches, schema) s2 searched h4.
          after _ _ _ _ _ h4 λ bytes s3 encodes h5.
            inside_read _ _ _ _ _ searched λ s4 t same2 h6 same3.
              let found =
                search_locked-Collected input (trim input.table_name) (batches, schema) s4 t h6 in
              let (encoded, same4) =
                encode_as-IsEncoded input.output_format schema batches bytes s2 s3 encodes in
              let (report, same5) = pure-eq-ok _ r s3 s' h5 in
              record {
                named = named;
                not_empty = not_empty;
                table = found.table;
                opened = found.opened;
                opens = rw (← same1, ← same2) found.opens;
                fits = found.fits;
                query = build_query options input;
                asks = IsQuery-build_query options input;
                schema = schema;
                planned = found.planned;
                plans = found.plans;
                stream = found.stream;
                started = found.started;
                starts = found.starts;
                batches = batches;
                collects = rw (← same5, ← same4, ← same3) found.collects;
                rows_counted = cc;
                format = rw (← report) (IsReported-normalize_output_format input.output_format);
                encoded = rw (← report) encoded;
              }
