-- ===== src/Domain/Account/Balance.antt =====
-- What Grant, Redeem and CanRedeem do to a balance.
use mileage_core.Base.{◌≡◌, ◌↔◌, ◌-◌, ◌^◌, true, Option, none, some, arith}
use mileage_core.Base.Int.{
  ℤ, pos, ◌+ℤ◌, ◌-ℤ◌, ◌≤ℤ◌, ◌<ℤ◌, int_laws, +ℤ_parts, -ℤ_parts, eq_of_parts,
}
use mileage_core.Base.Int64.{wrap64, IsInt64, wrap64_self, wrap64_over}
use mileage_core.Errors.{Error, sentinel, invalid_amount, insufficient_balance}
use mileage_core.Domain.Account.{MileageAccount, grant, redeem, can_redeem}

-- What a call of Redeem does, by the amount: refused and unchanged, or the exact difference.
abbrev pub Redeemed : MileageAccount → ℤ → Option Error × MileageAccount → Type 0
Redeemed a amount (none, b) =
    (pos 0 <ℤ amount)
    × (amount ≤ℤ a.balance)
    × (b.balance +ℤ amount ≡ a.balance)
    × (pos 0 ≤ℤ b.balance)
    × (b.balance <ℤ a.balance)
    × (b.version ≡ wrap64 (a.version +ℤ pos 1))
Redeemed a amount (some e, b) =
    (b ≡ a)
    × ((e ≡ sentinel invalid_amount) ↔ (amount ≤ℤ pos 0))
    × ((e ≡ sentinel insufficient_balance) ↔ ((pos 0 <ℤ amount) × (a.balance <ℤ amount)))

-- From a balance that is not negative and fits an int64, Redeem succeeds or refuses as `Redeemed`
-- says: a success takes off exactly a positive, covered amount and adds one to the version; a
-- refusal leaves the account unchanged, and its error says which test failed.
pub redeem_lem :
    (a : MileageAccount) (amount : ℤ)
    → pos 0 ≤ℤ a.balance
    → IsInt64 a.balance
    → Redeemed a amount (redeem a amount)
unfolding redeem
redeem_lem a amount h r = ground (
  arith,
  -ℤ_parts a.balance amount,
  +ℤ_parts (a.balance -ℤ amount) amount,
  wrap64_self (a.balance -ℤ amount),
  eq_of_parts (a.balance -ℤ amount +ℤ amount) a.balance,
)

-- CanRedeem answers true exactly if Redeem reports no error.
pub can_redeem_iff :
    (a : MileageAccount) (amount : ℤ) → (can_redeem a amount ≡ true) ↔ ((redeem a amount).0 ≡ none)
unfolding redeem can_redeem
can_redeem_iff a amount = ground arith

-- For a balance that is not negative and a positive amount, both in int64, Grant reports no error,
-- and leaves a negative balance exactly if the sum exceeds 2^63 - 1.
pub grant_overflow :
    (a : MileageAccount) (amount : ℤ)
    → pos 0 ≤ℤ a.balance
    → IsInt64 a.balance
    → IsInt64 amount
    → pos 0 <ℤ amount
    → ((grant a amount).0 ≡ none)
      × (((grant a amount).1.balance <ℤ pos 0) ↔ (pos (2 ^ 63 - 1) <ℤ a.balance +ℤ amount))
unfolding grant
grant_overflow a amount h r s p = ground (
  arith,
  +ℤ_parts a.balance amount,
  wrap64_self (a.balance +ℤ amount),
  wrap64_over (a.balance +ℤ amount),
)

-- If the balance is not negative, the amount positive and their sum fits an int64, redeeming what
-- was just granted succeeds and restores the balance.
pub redeem-grant :
    (a : MileageAccount) (amount : ℤ)
    → pos 0 ≤ℤ a.balance
    → pos 0 <ℤ amount
    → a.balance +ℤ amount ≤ℤ pos (2 ^ 63 - 1)
    → ((redeem (grant a amount).1 amount).0 ≡ none)
      × ((redeem (grant a amount).1 amount).1.balance ≡ a.balance)
unfolding grant redeem
redeem-grant a amount h p fits = rw (wrap64_self (a.balance +ℤ amount) (omega int_laws)) (
    ground (
      arith,
      +ℤ_parts a.balance amount,
      -ℤ_parts (a.balance +ℤ amount) amount,
      eq_of_parts (a.balance +ℤ amount -ℤ amount) a.balance,
      wrap64_self (a.balance +ℤ amount -ℤ amount),
    ))
