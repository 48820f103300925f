-- ===== src/Domain.antt =====
-- The domain layer: internal/domain/mileage/account.go and transaction.go.
pub mod Account
pub mod User
pub mod Achievement
use mileage_core.Base.{ℕ, String}
use mileage_core.Base.Int.{ℤ}

-- time.Time; `zero` is its zero value.
abbrev pub Time : Type 0
Time = ℕ

-- type TransactionType string
abbrev pub TransactionType : Type 0
TransactionType = String

-- TransactionTypeGrant and TransactionTypeRedeem
abbrev pub transaction_type_grant : TransactionType
transaction_type_grant = "grant"

abbrev pub transaction_type_redeem : TransactionType
transaction_type_redeem = "redeem"

-- MileageTransaction
pub record MileageTransaction : Type 0 where
  pub id : String
  pub user_id : String
  pub amount : ℤ
  pub kind : TransactionType
  pub idempotency_key : String
  pub reason : String
  pub request_id : String
  pub created_at : Time
