-- ===== src/Mysql/MileageRepository.antt =====
-- internal/infra/mysql/mileage_repository.go: one function per method, with its SQL text.
use text.Mathlib.Text.{find?, ◌==◌ as str_eq}
use mileage_core.Base.{
  ℕ, String, Bool, true, false, ◌&&◌, Option, none, some, List, [], ◌∷◌, map, ◌==◌, if◌then◌else◌,
}
use mileage_core.Base.Int.{ℤ, pos, ◌+ℤ◌}
use mileage_core.Base.Int64.{wrap64}
use mileage_core.Errors.{
  DriverError, no_rows, mysql_error, Error, sentinel, driver, wrapped, optimistic_lock,
  already_processed,
}
use mileage_core.Effect.{returns, fails, Action}
use mileage_core.Domain.{MileageTransaction, TransactionType}
use mileage_core.Domain.Account.{MileageAccount}
use mileage_core.Mysql.Rows.{TransactionRow, account_of, to_domain}
use mileage_core.Mysql.Tx.{Context, get_querier, executed}
use mileage_core.Platform.{Platform, Reply, done, refused, SqlValue, varchar, bigint, SqlResult}

abbrev pub select_account_sql : String
select_account_sql =
    "SELECT user_id, balance, version, updated_at FROM mileage_accounts WHERE user_id = ?"

abbrev pub insert_account_sql : String
insert_account_sql = "INSERT INTO mileage_accounts (user_id, balance, version) VALUES (?, 0, 0)"

abbrev pub update_balance_sql : String
update_balance_sql =
    "UPDATE mileage_accounts SET balance = ?, version = version + 1 WHERE user_id = ? AND version = ?"

abbrev pub insert_transaction_sql : String
insert_transaction_sql =
    "INSERT INTO mileage_transactions (id, user_id, amount, type, idempotency_key, reason, request_id) VALUES (?, ?, ?, ?, ?, ?, ?)"

abbrev pub find_transaction_sql : String
find_transaction_sql =
    "SELECT id, user_id, amount, type, idempotency_key, reason, request_id, created_at FROM mileage_transactions WHERE user_id = ? AND idempotency_key = ? AND type = ?"

abbrev pub list_first_sql : String
list_first_sql =
    "SELECT id, user_id, amount, type, idempotency_key, reason, request_id, created_at FROM mileage_transactions WHERE user_id = ? ORDER BY created_at DESC LIMIT ?"

abbrev pub list_after_sql : String
list_after_sql =
    "SELECT id, user_id, amount, type, idempotency_key, reason, request_id, created_at FROM mileage_transactions WHERE user_id = ? AND id < ? ORDER BY created_at DESC LIMIT ?"

-- strings.Contains
abbrev pub contains : String → String → Bool
contains s sub = elim (find? s sub) [ some i ↦ true | none ↦ false ]

-- `err == sql.ErrNoRows` gives a nil pointer, any other error is wrapped.
abbrev pub row_or_nil : {W R A : Type 0} → (R → A) → String → Reply R → Action W (Option A)
row_or_nil f prefix (done row) w = returns (some (f row)) w
row_or_nil f prefix (refused no_rows) w = returns none w
row_or_nil f prefix (refused d) w = fails (wrapped prefix (driver d)) w

-- The test for a duplicate entry in InsertTransaction.
unfoldable pub insert_error : DriverError → Error
insert_error (mysql_error n m) =
    if (n == 1062) && contains m "uk_transactions_idempotency"
    then sentinel already_processed
    else wrapped "insert transaction" (driver (mysql_error n m))
insert_error d = wrapped "insert transaction" (driver d)

-- The end of UpdateBalance, on the number of rows that the statement changed.
abbrev pub lock_result : {W : Type 0} → Reply ℕ → Action W (Unit {0})
lock_result (refused d) w = fails (wrapped "rows affected" (driver d)) w
lock_result (done rows) w = if rows == 0 then fails (sentinel optimistic_lock) w else returns tt w

-- The arguments of the INSERT in InsertTransaction.
abbrev pub insert_arguments : MileageTransaction → List SqlValue
insert_arguments t =
    varchar t.id
    ∷ varchar t.user_id
    ∷ bigint t.amount
    ∷ varchar t.kind
    ∷ varchar t.idempotency_key
    ∷ varchar t.reason
    ∷ varchar t.request_id
    ∷ []

abbrev pub update_result : {W : Type 0} → Reply SqlResult → Action W (Unit {0})
update_result (done res) w = lock_result res.rows_affected w
update_result (refused d) w = fails (wrapped "update balance" (driver d)) w

-- The statement that ListTransactions chooses, its arguments, and the prefix of its error.
abbrev pub list_query : String → String → ℤ → String × List SqlValue × String
list_query user_id cursor limit =
    if str_eq cursor ""
    then (
      list_first_sql,
      varchar user_id ∷ bigint (wrap64 (limit +ℤ pos 1)) ∷ [],
      "list transactions",
    )
    else (
      list_after_sql,
      varchar user_id ∷ varchar cursor ∷ bigint (wrap64 (limit +ℤ pos 1)) ∷ [],
      "list transactions with cursor",
    )

-- The rows of a list, translated one by one.
abbrev pub listed :
    {W : Type 0} → String → Reply (List TransactionRow) → Action W (List MileageTransaction)
listed prefix (done rows) w = returns (map to_domain rows) w
listed prefix (refused d) w = fails (wrapped prefix (driver d)) w

module _ (p : Platform) where
  open p use {
    World, Tx, exec_context, get_account_row, get_transaction_row, select_transaction_rows,
  }

  -- GetAccount
  unfoldable pub get_account : Context Tx → String → Action World (Option MileageAccount)
  get_account ctx user_id w =
      let (r, w') = get_account_row (get_querier ctx) select_account_sql (varchar user_id ∷ []) w in
      row_or_nil account_of "get account" r w'

  -- CreateAccount
  unfoldable pub create_account : Context Tx → String → Action World (Unit {0})
  create_account ctx user_id w =
      let (r, w') = exec_context (get_querier ctx) insert_account_sql (varchar user_id ∷ []) w in
      executed (λ d. wrapped "create account" (driver d)) r w'

  -- UpdateBalance
  unfoldable pub update_balance : Context Tx → String → ℤ → ℤ → Action World (Unit {0})
  update_balance ctx user_id new_balance expected_version w =
      let (r, w') =
        exec_context (get_querier ctx) update_balance_sql
          (bigint new_balance ∷ varchar user_id ∷ bigint expected_version ∷ []) w in
      update_result r w'

  -- InsertTransaction
  unfoldable pub insert_transaction : Context Tx → MileageTransaction → Action World (Unit {0})
  insert_transaction ctx t w =
      let (r, w') = exec_context (get_querier ctx) insert_transaction_sql (insert_arguments t) w in
      executed insert_error r w'

  -- FindTransactionByIdempotencyKey
  unfoldable pub find_transaction_by_idempotency_key :
      Context Tx → String → String → TransactionType → Action World (Option MileageTransaction)
  find_transaction_by_idempotency_key ctx user_id key kind w =
      let (r, w') =
        get_transaction_row (get_querier ctx) find_transaction_sql
          (varchar user_id ∷ varchar key ∷ varchar kind ∷ []) w in
      row_or_nil to_domain "find transaction by idempotency key" r w'

  -- ListTransactions
  unfoldable pub list_transactions :
      Context Tx → String → String → ℤ → Action World (List MileageTransaction)
  list_transactions ctx user_id cursor limit w =
      let (sql, arguments, prefix) = list_query user_id cursor limit in
      let (r, w') = select_transaction_rows (get_querier ctx) sql arguments w in listed prefix r w'
