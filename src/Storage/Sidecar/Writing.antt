-- ===== src/Storage/Sidecar/Writing.antt =====
-- `add_many` of src/cacheblend_gpt_oss/storage/sidecar.py. SQLite's table is of any type, with the two
-- statements that the code uses; a failed transaction leaves the table as it was.
use cacheblend_gpt_oss.Prelude.{
  ℕ, suc, ◌+◌, ◌≡◌, Bool, true, false, not, List, [], ◌∷◌, Value, ok, raise, ◌>>=◌, ◌>>◌, raise_if,
  length, All, ltb, leb, holds, if◌then◌else◌,
}
use cacheblend_gpt_oss.Planner.Models.{CacheRecord, CacheRecord-discrete}
use cacheblend_gpt_oss.Storage.Sidecar.{
  Kept, configuration, mode_error, closed_error, corruption, invalid_record, record_corrupt,
  checksum_collision, closed_index, write_forbidden,
}
use cacheblend_gpt_oss.Storage.Sidecar.Rows.{Row, encode_record, record_from_row}

abbrev pub max_transaction_records : ℕ
max_transaction_records = 1024

abbrev pub max_transaction_tokens : ℕ
max_transaction_tokens = 1048576

pub data SidecarMode : Type 0 where
  scheduler_read_only worker_read_write : SidecarMode

abbrev pub may_write : SidecarMode → Bool
may_write scheduler_read_only = false
may_write worker_read_write = true

-- `INSERT OR IGNORE`, and whether it inserted; the rows with a checksum, two at most.
pub record Statements (T : Type 0) : Type 1 where
  pub insert : T → Row → Kept (Bool × T)
  pub by_checksum : T → Value → Kept (List Row)

module _ (sha256 : List ℕ → List ℕ) where
  -- The first loop: `count` records with `total` tokens were encoded before.
  unfoldable pub encode_batch : ℕ → ℕ → List CacheRecord → Kept (List (CacheRecord × Row))
  unfolding encode_record
  encode_batch count total [] = ok []
  encode_batch count total (r ∷ rs) = do
    raise_if (leb max_transaction_records count) (configuration invalid_record)
    row ← encode_record sha256 r
    raise_if (ltb max_transaction_tokens (total + length r.token_ids))
        (configuration invalid_record)
    rest ← encode_batch (suc count) (total + length r.token_ids) rs
    ok ((r, row) ∷ rest)

  -- The one row that has the checksum already is that of the same record.
  unfoldable pub confirm_existing : CacheRecord → List Row → Kept (Unit {0})
  unfolding record_from_row
  confirm_existing r (row ∷ []) = do
    existing ← record_from_row sha256 row r.namespace r.fingerprint
    raise_if (not (holds (CacheRecord-discrete existing r))) (corruption checksum_collision)
  confirm_existing r _ = raise (corruption record_corrupt)

  module _ {T : Type 0} (statements : Statements T) where
    -- The body of the second loop.
    unfoldable pub insert_record : CacheRecord → Row → ℕ → T → Kept (ℕ × T)
    unfolding confirm_existing
    insert_record r row inserted t = do
      (fresh, t') ← statements.insert t row
      (if fresh then ok (suc inserted, t') else do
        rows ← statements.by_checksum t' row.record_checksum
        confirm_existing r rows
        ok (inserted, t'))

    unfoldable pub insert_batch : List (CacheRecord × Row) → ℕ → T → Kept (ℕ × T)
    unfolding insert_record
    insert_batch [] inserted t = ok (inserted, t)
    insert_batch ((r, row) ∷ encoded) inserted t = do
      (inserted', t') ← insert_record r row inserted t
      insert_batch encoded inserted' t'

    -- The transaction: its table is kept only if it succeeds.
    abbrev pub committed : T → Kept (ℕ × T) → Kept ℕ × T
    committed t (ok (inserted, t')) = (ok inserted, t')
    committed t (raise e) = (raise e, t)

    unfoldable pub add_many : SidecarMode → Bool → List CacheRecord → T → Kept ℕ × T
    unfolding encode_batch insert_batch
    add_many mode closed rs t = committed t (do
      raise_if closed (closed_error closed_index)
      raise_if (not (may_write mode)) (mode_error write_forbidden)
      encoded ← encode_batch 0 0 rs
      insert_batch encoded 0 t)

-- What the code relies on of SQLite: an inserted row is there, rows stay, and rows with a checksum
-- are rows of the table.
pub record IsTable {T : Type 0} (statements : Statements T) (Has : T → Row → Type 0) : Type 0 where
  pub inserted : (t : T) (row : Row) (t' : T) → statements.insert t row ≡ ok (true, t') → Has t' row
  pub kept :
      (t : T) (row : Row) (fresh : Bool) (t' : T)
      → statements.insert t row ≡ ok (fresh, t')
      → (other : Row) → Has t other
      → Has t' other
  pub found :
      (t : T) (checksum : Value) (rows : List Row)
      → statements.by_checksum t checksum ≡ ok rows
      → All (Has t) rows
