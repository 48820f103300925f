-- ===== src/Usecase/Posting/Clients/Overdraft.antt =====
-- Overdrafts from the first transaction on.
use mileage_core.Base.{String, Bool, true, ◌≡◌, ◌-◌, ◌^◌, [], arith}
use mileage_core.Base.Int.{pos, ◌≤ℤ◌}
use mileage_core.Tables.{Tables}
use mileage_core.Tables.Ledger.{balance_of, total}
use mileage_core.Usecase.Posting.Clients.{Reach}
use mileage_core.Usecase.Posting.Clients.Solvent.{IsExact, grants, Solvent, Reach-Solvent}

module _ (same : String → String → Bool)
    (same_symm : (a b : String) → same a b ≡ true → same b a ≡ true)
    (same_trans : (a b c : String) → same a b ≡ true → same b c ≡ true → same a c ≡ true) where
  untouched-Solvent :
      (t : Tables) (u : String)
      → t.transactions ≡ []
      → balance_of (t.accounts u) ≡ pos 0
      → Solvent same t u
  unfolding total grants
  untouched-Solvent t u none_yet zero_balance = rw (none_yet, zero_balance) (ground arith)

  -- When the tables hold no transaction and no balance but zero, and then grants, redemptions and
  -- account creations are committed in any interleaving, by any number of clients: a user to whom at
  -- most 2^63 - 1 has been granted in total has a balance that is the exact sum of the grants less
  -- the redemptions, that is not negative, and that is at most the sum of the grants.
  pub never_overdrawn :
      {a b : Tables}
      → a.transactions ≡ []
      → ((u : String) → balance_of (a.accounts u) ≡ pos 0)
      → Reach same a b
      → (u : String) → grants same u b.transactions ≤ℤ pos (2 ^ 63 - 1)
      → IsExact same
          (balance_of (b.accounts u))
          (total same u b.transactions)
          (grants same u b.transactions)
  never_overdrawn {a} {b} none_yet zero_balances r u fits =
      (Reach-Solvent same same_symm same_trans r
          (λ v. untouched-Solvent a v none_yet (zero_balances v)) u).1
        fits
