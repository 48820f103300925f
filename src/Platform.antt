-- ===== src/Platform.antt =====
-- Code outside the repository, as a parameter: the MySQL driver under sqlx, the Redis client with
-- encoding/json, and the ULID generator. `World` is everything outside the process.
use mileage_core.Base.{ℕ, String, List}
use mileage_core.Base.Int.{ℤ}
use mileage_core.Errors.{DriverError}
use mileage_core.Mysql.Rows.{AccountRow, TransactionRow}

-- A driver's `(value, err)`.
pub data Reply (A : Type 0) : Type 0 where
  done : A → Reply A
  refused : DriverError → Reply A

-- An argument of a statement.
pub data SqlValue : Type 0 where
  varchar : String → SqlValue
  bigint : ℤ → SqlValue

-- sql.Result
pub record SqlResult : Type 0 where
  pub rows_affected : Reply ℕ

-- Querier of internal/infra/mysql/tx.go: the pool, or an open transaction.
pub data Querier (Tx : Type 0) : Type 0 where
  on_db : Querier Tx
  on_tx : Tx → Querier Tx

-- BalanceCache of internal/infra/redis/cache.go, the value that is encoded as JSON.
pub record BalanceCache : Type 0 where
  pub balance : ℤ
  pub version : ℤ

pub record Platform : Type 1 where
  pub World : Type 0
  pub Tx : Type 0
  -- sqlx.DB.BeginTxx, sqlx.Tx.Commit, sqlx.Tx.Rollback
  pub begin_txx : World → Reply Tx × World
  pub commit : Tx → World → Reply (Unit {0}) × World
  pub rollback : Tx → World → Reply (Unit {0}) × World
  -- ExecContext, GetContext into an accountRow or a transactionRow, SelectContext into a
  -- []transactionRow
  pub exec_context : Querier Tx → String → List SqlValue → World → Reply SqlResult × World
  pub get_account_row : Querier Tx → String → List SqlValue → World → Reply AccountRow × World
  pub get_transaction_row :
      Querier Tx → String → List SqlValue → World → Reply TransactionRow × World
  pub select_transaction_rows :
      Querier Tx → String → List SqlValue → World → Reply (List TransactionRow) × World
  -- redis.Client: Get(…).Bytes, Set with an expiry in minutes, Del; on a []byte
  pub Bytes : Type 0
  pub redis_get : String → World → Reply Bytes × World
  pub redis_set : String → Bytes → ℕ → World → Reply (Unit {0}) × World
  pub redis_del : String → World → Reply (Unit {0}) × World
  -- json.Marshal and json.Unmarshal at BalanceCache
  pub marshal : BalanceCache → Reply Bytes
  pub unmarshal : Bytes → Reply BalanceCache
  -- ulid.MustNew(ulid.Timestamp(time.Now()), rand.Reader).String()
  pub new_ulid : World → String × World
  -- time.Time.Format at the layout of the transaction list
  pub format_time : ℕ → String
