-- ===== src/Usecase/Balance.antt =====
-- internal/usecase/balance.go: the balance from the cache, or from the database.
pub mod Coherence
pub mod Fresh
use mileage_core.Base.{String, Option, none, some}
use mileage_core.Base.Int.{ℤ}
use mileage_core.Errors.{message, wrapped}
use mileage_core.Effect.{Action, pure, fails, with_error, on_error, logged, follow, ◌>>=◌}
use mileage_core.Domain.Account.{MileageAccount}
use mileage_core.Platform.{Platform, BalanceCache}
use mileage_core.Mysql.Tx.{Context}
use mileage_core.Mysql.MileageRepository.{get_account}
use mileage_core.Cache.{get_balance, set_balance}

-- BalanceOutput
pub record BalanceOutput : Type 0 where
  pub user_id : String
  pub balance : ℤ
  pub version : ℤ

module _ (p : Platform) where
  open p use {World, Tx}

  -- What follows GetAccount: a nil account is an error, and a failure to fill the cache is logged.
  unfoldable pub from_account : String → Option MileageAccount → Action World BalanceOutput
  from_account user_id none w = fails (message "account not found") w
  from_account user_id (some a) w =
      follow (logged (set_balance p user_id a.balance a.version w))
        (λ u. pure (record { user_id = user_id; balance = a.balance; version = a.version }))

  unfoldable pub from_cache : Context Tx → String → Option BalanceCache → Action World BalanceOutput
  from_cache ctx user_id (some c) =
      pure (record { user_id = user_id; balance = c.balance; version = c.version })
  from_cache ctx user_id none = do
    account ← with_error (wrapped "get account") (get_account p ctx user_id)
    from_account user_id account

  -- Execute. A cache that cannot be read counts as a miss.
  unfoldable pub read_balance : Context Tx → String → Action World BalanceOutput
  read_balance ctx user_id w =
      follow (on_error (get_balance p user_id w) (λ e. pure none)) (from_cache ctx user_id)
