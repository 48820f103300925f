-- ===== src/Tests/Account.antt =====
-- The cases of internal/domain/mileage/account_test.go, and the account's theorems at inputs.
use mileage_core.Base.{◌≡◌, ◌↔◌, ◌-◌, ◌^◌, refl, true, false, none, some, arith}
use mileage_core.Base.Int.{ℤ, pos, negsuc, ◌+ℤ◌, ◌-ℤ◌, ◌<ℤ◌}
use mileage_core.Base.Int64.{wrap64}
use mileage_core.Errors.{sentinel, invalid_amount, insufficient_balance}
use mileage_core.Domain.Account.{MileageAccount, grant, redeem, can_redeem}
use mileage_core.Domain.Account.Balance.{
  Redeemed, redeem_lem, can_redeem_iff, grant_overflow, redeem-grant,
}

abbrev account : ℤ → MileageAccount
account balance = record { user_id = "u"; balance = balance; version = pos 1; updated_at = 0 }

grant_normal :
    grant (account (pos 100)) (pos 50) ≡ (none, record (account (pos 150)) { version = pos 2 })
unfolding grant ◌+ℤ◌ wrap64
grant_normal = refl

grant_negative : (grant (account (pos 100)) (negsuc 9)).0 ≡ some (sentinel invalid_amount)
unfolding grant
grant_negative = refl

redeem_all :
    redeem (account (pos 100)) (pos 100) ≡ (none, record (account (pos 0)) { version = pos 2 })
unfolding redeem ◌+ℤ◌ ◌-ℤ◌ wrap64
redeem_all = refl

redeem_short : (redeem (account (pos 50)) (pos 100)).0 ≡ some (sentinel insufficient_balance)
unfolding redeem
redeem_short = refl

can_redeem_cases :
    (can_redeem (account (pos 100)) (pos 100) ≡ true)
    × (can_redeem (account (pos 100)) (pos 101) ≡ false)
    × (can_redeem (account (pos 100)) (pos 0) ≡ false)
unfolding can_redeem
can_redeem_cases = (refl, refl, refl)

redeem_lem_example : Redeemed (account (pos 100)) (pos 30) (redeem (account (pos 100)) (pos 30))
redeem_lem_example = redeem_lem (account (pos 100)) (pos 30) (omega arith) (omega arith)

can_redeem_iff_example :
    (can_redeem (account (pos 100)) (pos 30) ≡ true)
    ↔ ((redeem (account (pos 100)) (pos 30)).0 ≡ none)
can_redeem_iff_example = can_redeem_iff (account (pos 100)) (pos 30)

-- A grant of 1 to the largest balance makes it negative.
grant_overflow_example :
    ((grant (account (pos (2 ^ 63 - 1))) (pos 1)).0 ≡ none)
    × (((grant (account (pos (2 ^ 63 - 1))) (pos 1)).1.balance <ℤ pos 0)
        ↔ (pos (2 ^ 63 - 1) <ℤ pos (2 ^ 63 - 1) +ℤ pos 1))
grant_overflow_example =
    grant_overflow (account (pos (2 ^ 63 - 1))) (pos 1) (omega arith) (omega arith) (omega arith)
      (omega arith)

redeem-grant_example :
    ((redeem (grant (account (pos 5)) (pos 7)).1 (pos 7)).0 ≡ none)
    × ((redeem (grant (account (pos 5)) (pos 7)).1 (pos 7)).1.balance ≡ pos 5)
unfolding ◌+ℤ◌
redeem-grant_example =
    redeem-grant (account (pos 5)) (pos 7) (omega arith) (omega arith) (omega arith)
