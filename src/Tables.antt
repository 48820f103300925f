-- ===== src/Tables.antt =====
-- The two tables of migrations/001_create_tables.up.sql that hold the points, as rows: accounts by
-- primary key and transactions with the newest first. `same` is the equality of the tables'
-- collation, under which utf8mb4_unicode_ci compares keys.
pub mod Ledger
use mileage_core.Base.{
  String, Bool, true, ◌≡◌, ◌&&◌, Option, none, some, List, [], ◌∷◌, ◌++◌, if◌then◌else◌,
}
use mileage_core.Mysql.Rows.{AccountRow, TransactionRow}

pub record Tables : Type 0 where
  pub accounts : String → Option AccountRow
  pub transactions : List TransactionRow

-- What one statement of an open transaction adds to it.
pub data Write : Type 0 where
  insert_row : TransactionRow → Write
  -- The row of the account under this key.
  update_row : String → AccountRow → Write

module _ (same : String → String → Bool) where
  -- uk_transactions_idempotency: the row holds this user's key for this type.
  abbrev pub holds_key : String → String → String → TransactionRow → Bool
  holds_key user key kind r =
      same r.user_id user && (same r.idempotency_key key && same r.kind kind)

  unfoldable pub find_row : String → String → String → List TransactionRow → Option TransactionRow
  find_row user key kind [] = none
  find_row user key kind (r ∷ rs) =
      if holds_key user key kind r then some r else find_row user key kind rs

  abbrev pub apply : Write → Tables → Tables
  apply (insert_row r) t = record t { transactions = r ∷ t.transactions }
  apply (update_row key r) t = record t {
    accounts = λ user. if same key user then some r else t.accounts user;
  }

  abbrev pub apply_all : List Write → Tables → Tables
  apply_all [] t = t
  apply_all (x ∷ xs) t = apply_all xs (apply x t)

  -- What the locks of a transaction keep in place until it ends: the rows it has updated, and
  -- the keys that it has inserted.
  abbrev pub Locked : Tables → Tables → Write → Type 0
  Locked now later (insert_row r) =
      find_row r.user_id r.idempotency_key r.kind later.transactions ≡ none
  Locked now later (update_row key r) = later.accounts key ≡ now.accounts key

  abbrev pub AllLocked : Tables → Tables → List Write → Type 0
  AllLocked now later [] = Unit
  AllLocked now later (x ∷ xs) = Locked now later x × AllLocked now later xs
