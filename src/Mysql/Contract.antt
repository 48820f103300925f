-- ===== src/Mysql/Contract.antt =====
-- What the usecases rely on of MySQL (InnoDB at REPEATABLE READ, the schema of
-- migrations/001_create_tables.up.sql), of Redis and of the ULID generator: documented behaviour
-- of code outside the repository, as named hypotheses.
use mileage_core.Base.{
  ℕ, String, Bool, true, ◌≡◌, ◌≢◌, ◌⊎◌, Option, none, some, List, [], ◌∷◌, ◌++◌,
}
use mileage_core.Base.Int.{ℤ, pos, ◌+ℤ◌}
use mileage_core.Base.Int64.{IsInt64}
use mileage_core.Errors.{DriverError, no_rows}
use mileage_core.Mysql.Rows.{AccountRow, TransactionRow}
use mileage_core.Mysql.MileageRepository.{
  select_account_sql, update_balance_sql, insert_transaction_sql, find_transaction_sql,
  insert_arguments,
}
use mileage_core.Domain.{MileageTransaction}
use mileage_core.Platform.{Platform, Reply, done, refused, on_db, on_tx, varchar, bigint}
use mileage_core.Tables.{Tables, Write, insert_row, update_row, find_row, apply_all, AllLocked}

-- A statement about a reply.
abbrev pub On : {A : Type 0} → Reply A → (A → Type 0) → (DriverError → Type 0) → Type 0
On (done a) P Q = P a
On (refused d) P Q = Q d

-- An open transaction: whether it has read nothing yet (its snapshot is taken by the first read),
-- and what it has written.
pub record TxView : Type 0 where
  pub is_fresh : Bool
  pub writes : List Write

abbrev pub new_view : TxView
new_view = record { is_fresh = true; writes = [] }

-- The row that INSERT stores for a transaction: created_at is the column's default.
abbrev pub row_of : MileageTransaction → Option ℕ → TransactionRow
row_of t created = record {
  id = t.id;
  user_id = t.user_id;
  amount = t.amount;
  kind = t.kind;
  idempotency_key = t.idempotency_key;
  reason = t.reason;
  request_id = t.request_id;
  created_at = created;
}

-- The row that UPDATE leaves.
abbrev pub updated_row : AccountRow → ℤ → Option ℕ → AccountRow
updated_row r balance updated = record r {
  balance = balance;
  version = r.version +ℤ pos 1;
  updated_at = updated;
}

-- The effect of a commit: it is applied at one point, to tables that the locks have kept in place.
pub record Applied (same : String → String → Bool) (Others : Tables → Tables → Type 0)
    (writes : List Write) (before : Tables) (after : Tables) : Type 0 where
  pub point : Tables
  pub reached : Others before point
  pub locked : AllLocked same before point writes
  pub result : after ≡ apply_all same writes point

pub record Server (p : Platform) : Type 1 where
  -- The committed rows, and each open transaction.
  pub committed : p.World → Tables
  pub view : p.Tx → p.World → TxView
  -- The collation's equality.
  pub same : String → String → Bool
  pub same_refl : (a : String) → same a a ≡ true
  pub same_symm : (a b : String) → same a b ≡ true → same b a ≡ true
  pub same_trans : (a b c : String) → same a b ≡ true → same b c ≡ true → same a c ≡ true
  -- What other clients may do to the tables meanwhile: whoever changes a balance changes the
  -- version too, and a version does not come back.
  pub Others : Tables → Tables → Type 0
  pub others_refl : (a : Tables) → Others a a
  pub others_trans : (a b c : Tables) → Others a b → Others b c → Others a c
  pub others_versioned :
      (a b : Tables) (u : String) (r s : AccountRow)
      → Others a b
      → a.accounts u ≡ some r
      → b.accounts u ≡ some s
      → r.version ≡ s.version
      → r ≡ s
  -- BEGIN opens a transaction that has neither read nor written.
  pub begin_law :
      (w : p.World)
      → let (r, w') = p.begin_txx w in
        Others (committed w) (committed w') × On r (λ t. view t w' ≡ new_view) (λ d. Unit {0})
  -- COMMIT applies the writes at once. If it reports an error, it may have done so or not.
  pub commit_law :
      (t : p.Tx) (w : p.World)
      → let (r, w') = p.commit t w in
        On r
          (λ u. Applied same Others (view t w).writes (committed w) (committed w'))
          (λ d.
            Others (committed w) (committed w')
            ⊎ Applied same Others (view t w).writes (committed w) (committed w'))
  -- ROLLBACK discards the writes, and so does the loss of the connection when it fails.
  pub rollback_law : (t : p.Tx) (w : p.World) → Others (committed w) (committed (p.rollback t w).1)
  -- A SELECT by primary key sees the committed row: as the first read of a transaction that has
  -- written nothing, and outside of one.
  pub select_in_tx_law :
      (t : p.Tx) (u : String) (w : p.World)
      → view t w ≡ new_view
      → let (r, w') = p.get_account_row (on_tx t) select_account_sql (varchar u ∷ []) w in
        Others (committed w) (committed w')
        × ((view t w').writes ≡ [])
        × On r
            (λ row.
              ((committed w').accounts u ≡ some row) × IsInt64 row.balance × IsInt64 row.version)
            (λ d. d ≡ no_rows → (committed w').accounts u ≡ none)
  pub select_account_law :
      (u : String) (w : p.World)
      → let (r, w') = p.get_account_row on_db select_account_sql (varchar u ∷ []) w in
        Others (committed w) (committed w')
        × On r
            (λ row.
              ((committed w').accounts u ≡ some row) × IsInt64 row.balance × IsInt64 row.version)
            (λ d. d ≡ no_rows → (committed w').accounts u ≡ none)
  -- A SELECT by the unique key, outside a transaction.
  pub find_law :
      (u key kind : String) (w : p.World)
      → let (r, w') =
          p.get_transaction_row on_db find_transaction_sql
            (varchar u ∷ varchar key ∷ varchar kind ∷ [])
            w in
        Others (committed w) (committed w')
        × On r
            (λ row. find_row same u key kind (committed w').transactions ≡ some row)
            (λ d. d ≡ no_rows → find_row same u key kind (committed w').transactions ≡ none)
  -- INSERT adds a row to the transaction's writes.
  pub insert_law :
      (t : p.Tx) (m : MileageTransaction) (w : p.World)
      → let (r, w') = p.exec_context (on_tx t) insert_transaction_sql (insert_arguments m) w in
        Others (committed w) (committed w')
        × On r
            (λ res.
              (created : Option ℕ) × ((view t w').writes
                ≡ (view t w).writes ++ (insert_row (row_of m created) ∷ [])))
            (λ d. Unit {0})
  -- UPDATE … WHERE user_id = ? AND version = ? reads the latest committed row and locks it. It
  -- counts no row if none has that version.
  pub update_law :
      (t : p.Tx) (u : String) (balance version : ℤ) (w : p.World)
      → let (r, w') =
          p.exec_context
            (on_tx t)
            update_balance_sql
            (bigint balance ∷ varchar u ∷ bigint version ∷ [])
            w in
        Others (committed w) (committed w')
        × On r
            (λ res.
              On res.rows_affected
                (λ rows.
                  (rows ≡ 0
                    → (row : AccountRow) → (committed w').accounts u ≡ some row
                    → row.version ≢ version)
                  × (rows ≢ 0
                      → (row : AccountRow) × (updated : Option ℕ) × ((committed w').accounts u
                          ≡ some row)
                        × (row.version ≡ version)
                        × IsInt64 (row.version +ℤ pos 1)
                        × ((view t w').writes
                            ≡ (view t w).writes
                              ++ (update_row u (updated_row row balance updated) ∷ []))))
                (λ d. Unit {0}))
            (λ d. Unit {0})
  -- Redis and the ULID generator leave the tables and the open transactions alone.
  pub redis_get_law :
      (key : String) (w : p.World) → Others (committed w) (committed (p.redis_get key w).1)
  pub redis_set_law :
      (key : String) (bytes : p.Bytes) (minutes : ℕ) (w : p.World)
      → Others (committed w) (committed (p.redis_set key bytes minutes w).1)
  pub redis_del_law :
      (key : String) (w : p.World) → Others (committed w) (committed (p.redis_del key w).1)
  pub ulid_law :
      (w : p.World)
      → let w' = (p.new_ulid w).1 in
        Others (committed w) (committed w') × ((t : p.Tx) → view t w' ≡ view t w)
