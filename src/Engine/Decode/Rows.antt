-- ===== src/Engine/Decode/Rows.antt =====
-- The batches and the row counts that the two decoders and the encoders give.
use vldb_lancedb.Engine.Error.{to_engine_error}
use vldb_lancedb.Engine.Encode.{count_rows}
use vldb_lancedb.Engine.Decode.{read_batches, decode_arrow_ipc_to_batches, add_u64}
use vldb_lancedb.Prelude.{
  List, ℕ, Result, String, ◌∷◌, ◌+◌, ◌<◌, [], ◌^◌, ◌≡◌, ok, ◌↔◌, map, ◌++◌, ◌%◌, err, arith, ap,
  ◌∙◌, refl, >>=-eq-ok, map_err, map_err-eq-ok, sym,
}
use vldb_lancedb.External.Arrow.{Arrow}
use vldb_lancedb.External.SerdeJson.{SerdeJson}
use mathlib.Core.List.{append-nil, append_assoc}

module _ (J : SerdeJson) (A : Arrow J.F32 J.F64) where
  open J use {Value}
  open A use {RecordBatch}

  -- The rows of all batches, with no bound.
  abbrev pub total_rows : List RecordBatch → ℕ
  total_rows [] = 0
  total_rows (batch ∷ batches) = A.num_rows batch + total_rows batches

  read_batches_sound :
      (items : List (Result RecordBatch String)) (done batches : List RecordBatch) (rows n : ℕ)
      → rows < 2 ^ 64
      → read_batches J A items done rows ≡ ok (batches, n)
      → (read : List RecordBatch) × (items ≡ map ok read)
        × (batches ≡ done ++ read)
        × (n ≡ (rows + total_rows read) % 2 ^ 64)
  unfolding read_batches
  read_batches_sound [] done batches rows n small h =
      ([], refl, rw append-nil (ground arith), ground arith)
  read_batches_sound (ok batch ∷ items) done batches rows n small h =
      let (read, all_ok, same, count) =
        read_batches_sound items (done ++ batch ∷ []) batches (add_u64 rows (A.num_rows batch)) n
          (omega arith) h in
      (
        batch ∷ read,
        ap (λ t. ok batch ∷ t) all_ok,
        same ∙ append_assoc done (batch ∷ []) read,
        omega arith,
      )
  read_batches_sound (err e ∷ items) done batches rows n small h = absurd (ground arith)

  read_batches_complete :
      (read done : List RecordBatch) (rows : ℕ)
      → rows < 2 ^ 64
      → read_batches J A (map ok read) done rows
        ≡ ok (done ++ read, (rows + total_rows read) % 2 ^ 64)
  unfolding read_batches
  read_batches_complete [] done rows small = rw append-nil (ground arith)
  read_batches_complete (batch ∷ read) done rows small =
      let regroup : (done ++ batch ∷ []) ++ read ≡ done ++ (batch ∷ read) =
        append_assoc done (batch ∷ []) read in
      let later =
        read_batches_complete read (done ++ batch ∷ []) (add_u64 rows (A.num_rows batch))
          (omega arith) in
      ground (arith, later, regroup)

  -- An IPC payload decodes exactly when the stream opens and every batch of it can be read; the
  -- batches are those of the stream in its order, and the count is the sum of their rows modulo 2^64.
  pub decode_arrow_ipc_iff :
      (bytes : List ℕ) (batches : List RecordBatch) (n : ℕ)
      → (decode_arrow_ipc_to_batches J A bytes ≡ ok (batches, n))
        ↔ ((A.read_stream bytes ≡ ok (map ok batches)) × (n ≡ total_rows batches % 2 ^ 64))
  unfolding decode_arrow_ipc_to_batches
  decode_arrow_ipc_iff bytes batches n = (
    λ h.
        let (items, opened, h1) = >>=-eq-ok (map_err to_engine_error (A.read_stream bytes)) _ h in
        let (read, all_ok, same, count) =
          read_batches_sound items [] batches 0 n (omega arith) h1 in
        (
          map_err-eq-ok to_engine_error (A.read_stream bytes) items opened
              ∙ ap ok (all_ok ∙ ap (map ok) (sym same)),
          rw same (omega (arith, count)),
        ),
    λ (opened, count). rw opened (ground (arith, read_batches_complete batches [] 0 (omega arith))),
  )

  -- The rows that a search reports are the rows of all its batches modulo 2^64.
  pub count_rows-total :
      (batches : List RecordBatch) → count_rows A batches ≡ total_rows batches % 2 ^ 64
  unfolding count_rows
  count_rows-total [] = omega arith
  count_rows-total (batch ∷ batches) = omega (arith, count_rows-total batches)
