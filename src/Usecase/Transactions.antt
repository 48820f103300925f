-- ===== src/Usecase/Transactions.antt =====
-- internal/usecase/transactions.go: the list of transactions, page by page.
pub mod Pages
pub mod Cursor
use mileage_core.Base.{ℕ, suc, String, ◌||◌, List, [], ◌∷◌, ◌++◌, if◌then◌else◌}
use mileage_core.Base.Int.{ℤ, pos, leb_ℤ, ltb_ℤ}
use mileage_core.Errors.{wrapped}
use mileage_core.Effect.{Action, pure, with_error, ◌>>=◌}
use mileage_core.Domain.{MileageTransaction}
use mileage_core.Platform.{Platform}
use mileage_core.Mysql.Tx.{Context}
use mileage_core.Mysql.MileageRepository.{list_transactions}

-- TransactionsInput
pub record TransactionsInput : Type 0 where
  pub user_id : String
  pub cursor : String
  pub limit : ℤ

-- TransactionItem
pub record TransactionItem : Type 0 where
  pub id : String
  pub kind : String
  pub amount : ℤ
  pub reason : String
  pub created_at : String

-- TransactionsOutput
pub record TransactionsOutput : Type 0 where
  pub items : List TransactionItem
  pub next_cursor : String

-- The limit that Execute goes by.
unfoldable pub page_limit : ℤ → ℤ
page_limit limit = if leb_ℤ limit (pos 0) || ltb_ℤ (pos 100) limit then pos 50 else limit

module _ (p : Platform) where
  open p use {World, Tx, format_time}

  abbrev pub item_of : MileageTransaction → TransactionItem
  item_of t = record {
    id = t.id;
    kind = t.kind;
    amount = t.amount;
    reason = t.reason;
    created_at = format_time t.created_at;
  }

  -- The loop over the rows, at index `i` with the items so far.
  unfoldable pub collect :
      ℤ → ℕ → List TransactionItem → List MileageTransaction → TransactionsOutput
  collect limit i items [] = record { items = items; next_cursor = "" }
  collect limit i items (t ∷ rows) =
      let rest = collect limit (suc i) (items ++ (item_of t ∷ [])) rows in
      if leb_ℤ limit (pos i) then record { items = items; next_cursor = t.id } else rest

  -- Execute
  unfoldable pub list_page : Context Tx → TransactionsInput → Action World TransactionsOutput
  list_page ctx input = do
    let limit = page_limit input.limit
    rows ←
        with_error (wrapped "list transactions")
          (list_transactions p ctx input.user_id input.cursor limit)
    pure (collect limit 0 [] rows)
