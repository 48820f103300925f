-- ===== src/Mysql/Rows.antt =====
-- The structs that sqlx scans a row into (internal/infra/mysql/mileage_repository.go), and their
-- translation to the domain. sql.NullTime is an Option: `none` is Valid = false.
use mileage_core.Base.{String, Option, none, some}
use mileage_core.Base.Int.{ℤ}
use mileage_core.Domain.{Time, MileageTransaction}
use mileage_core.Domain.Account.{MileageAccount}

-- accountRow
pub record AccountRow : Type 0 where
  pub user_id : String
  pub balance : ℤ
  pub version : ℤ
  pub updated_at : Option Time

-- transactionRow
pub record TransactionRow : Type 0 where
  pub id : String
  pub user_id : String
  pub amount : ℤ
  pub kind : String
  pub idempotency_key : String
  pub reason : String
  pub request_id : String
  pub created_at : Option Time

-- `if row.CreatedAt.Valid { tx.CreatedAt = row.CreatedAt.Time }`, on a zero value.
abbrev pub time_or_zero : Option Time → Time
time_or_zero none = 0
time_or_zero (some t) = t

-- The account that GetAccount builds from a row.
abbrev pub account_of : AccountRow → MileageAccount
account_of row = record {
  user_id = row.user_id;
  balance = row.balance;
  version = row.version;
  updated_at = time_or_zero row.updated_at;
}

-- transactionRow.toDomain
abbrev pub to_domain : TransactionRow → MileageTransaction
to_domain r = record {
  id = r.id;
  user_id = r.user_id;
  amount = r.amount;
  kind = r.kind;
  idempotency_key = r.idempotency_key;
  reason = r.reason;
  request_id = r.request_id;
  created_at = time_or_zero r.created_at;
}
