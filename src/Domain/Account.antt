-- ===== src/Domain/Account.antt =====
-- The aggregate root: MileageAccount with Grant, Redeem and CanRedeem
-- (internal/domain/mileage/account.go). A method that changes its receiver returns its error
-- (none is nil) and the receiver after the call.
pub mod Balance
use mileage_core.Base.{ℕ, String, Bool, ◌&&◌, Option, none, some, if◌then◌else◌}
use mileage_core.Base.Int.{ℤ, pos, ◌+ℤ◌, ◌-ℤ◌, ltb_ℤ, leb_ℤ}
use mileage_core.Base.Int64.{wrap64}
use mileage_core.Errors.{Error, sentinel, invalid_amount, insufficient_balance}

pub record MileageAccount : Type 0 where
  pub user_id : String
  pub balance : ℤ
  pub version : ℤ
  pub updated_at : ℕ

-- Grant
unfoldable pub grant : MileageAccount → ℤ → Option Error × MileageAccount
grant a amount = if leb_ℤ amount (pos 0) then (some (sentinel invalid_amount), a) else (
  none,
  record a { balance = wrap64 (a.balance +ℤ amount); version = wrap64 (a.version +ℤ pos 1) },
)

-- Redeem
unfoldable pub redeem : MileageAccount → ℤ → Option Error × MileageAccount
redeem a amount =
    if leb_ℤ amount (pos 0)
    then (some (sentinel invalid_amount), a)
    else if ltb_ℤ a.balance amount
    then (some (sentinel insufficient_balance), a)
    else (
      none,
      record a { balance = wrap64 (a.balance -ℤ amount); version = wrap64 (a.version +ℤ pos 1) },
    )

-- CanRedeem
unfoldable pub can_redeem : MileageAccount → ℤ → Bool
can_redeem a amount = ltb_ℤ (pos 0) amount && leb_ℤ amount a.balance
