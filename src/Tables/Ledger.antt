-- ===== src/Tables/Ledger.antt =====
-- The ledger behind the balances: what the rows of a user add up to, and when tables are consistent.
use text.Mathlib.Text.{◌==◌ as str_eq}
use mileage_core.Base.{String, Bool, true, ◌≡◌, Option, none, some, List, [], ◌∷◌, if◌then◌else◌}
use mileage_core.Base.Int.{ℤ, pos, ◌+ℤ◌, ◌-ℤ◌}
use mileage_core.Base.Int64.{wrap64}
use mileage_core.Domain.{transaction_type_grant}
use mileage_core.Mysql.Rows.{AccountRow, TransactionRow}
use mileage_core.Tables.{Tables, find_row}

-- A grant counts for its amount, a redemption against it.
abbrev pub signed : String → ℤ → ℤ
signed kind amount = if str_eq kind transaction_type_grant then amount else pos 0 -ℤ amount

abbrev pub balance_of : Option AccountRow → ℤ
balance_of none = pos 0
balance_of (some r) = r.balance

module _ (same : String → String → Bool) where
  unfoldable pub total : String → List TransactionRow → ℤ
  total user [] = pos 0
  total user (r ∷ rs) =
      let rest = total user rs in
      if same r.user_id user then signed r.kind r.amount +ℤ rest else rest

  -- No two rows hold the same key.
  abbrev pub DistinctKeys : List TransactionRow → Type 0
  DistinctKeys [] = Unit
  DistinctKeys (r ∷ rs) =
      (find_row same r.user_id r.idempotency_key r.kind rs ≡ none) × DistinctKeys rs

  -- Every balance is the sum of the user's transactions, modulo 2^64.
  pub record IsConsistent (t : Tables) : Type 0 where
    pub congruent : (u v : String) → same u v ≡ true → t.accounts u ≡ t.accounts v
    pub keyed : (u : String) (r : AccountRow) → t.accounts u ≡ some r → same r.user_id u ≡ true
    pub balanced : (u : String) → balance_of (t.accounts u) ≡ wrap64 (total u t.transactions)
    pub distinct : DistinctKeys t.transactions
