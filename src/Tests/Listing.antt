-- ===== src/Tests/Listing.antt =====
-- The memory platform's list of transactions, and its pages.
use text.Mathlib.Text.{◌==◌ as str_eq}
use mileage_core.Base.{ℕ, String, ◌≡◌, ◌≢◌, refl, ap, none, [], ◌∷◌, arith, drop, take}
use mileage_core.Base.Int.{pos, ◌≤ℤ◌}
use mileage_core.Effect.{Ensures}
use mileage_core.Mysql.Rows.{TransactionRow}
use mileage_core.Mysql.Tx.{background}
use mileage_core.Mysql.Listing.{Listing, rows_below}
use mileage_core.Mysql.Contract.{On}
use mileage_core.Platform.{varchar, bigint}
use mileage_core.Usecase.Transactions.{list_page, page_limit}
use mileage_core.Usecase.Transactions.Pages.{page_limit_bounds, PageFrom, first_page_lem}
use mileage_core.Usecase.Transactions.Cursor.{SkipsRow, Descending, next_page_skips}
use mileage_core.Tests.Memory.{Memory, memory, below, rows_of, select_transactions}
use mileage_core.Tests.Posting.{start}

list_first_law :
    (u : String) (n : ℕ) (m : Memory)
    → let (r, m') = select_transactions (varchar u ∷ bigint (pos n) ∷ []) m in
      (rows_of u m'.tables.transactions ≡ rows_of u m.tables.transactions)
      × On r (λ rows. rows ≡ take n (rows_of u m.tables.transactions)) (λ d. Unit {0})
unfolding select_transactions
list_first_law u n m = (refl, refl)

list_after_law :
    (u cursor : String) (n : ℕ) (m : Memory)
    → let (r, m') = select_transactions (varchar u ∷ varchar cursor ∷ bigint (pos n) ∷ []) m in
      (rows_of u m'.tables.transactions ≡ rows_of u m.tables.transactions)
      × On r
          (λ rows. rows ≡ take n (rows_below below cursor (rows_of u m.tables.transactions)))
          (λ d. Unit {0})
unfolding select_transactions
list_after_law u cursor n m = (refl, refl)

abbrev listing : Listing memory
listing = record {
  history = λ m u. rows_of u m.tables.transactions;
  below = below;
  list_first_law = list_first_law;
  list_after_law = list_after_law;
}

abbrev row : String → TransactionRow
row id = record {
  id = id;
  user_id = "alice";
  amount = pos 1;
  kind = "grant";
  idempotency_key = id;
  reason = "";
  request_id = "";
  created_at = none;
}

-- Five grants to alice, the newest first.
abbrev five : Memory
five = record start {
  tables = record {
    accounts = start.tables.accounts;
    transactions = row "01E" ∷ row "01D" ∷ row "01C" ∷ row "01B" ∷ row "01A" ∷ [];
  };
}

five-Descending : Descending below (rows_of "alice" five.tables.transactions)
unfolding rows_of
five-Descending = (
  refl,
  (refl, refl, (refl, refl, (refl, refl, (refl, refl, tt)))),
  (
    refl,
    (refl, refl, (refl, refl, (refl, refl, tt))),
    (refl, (refl, refl, (refl, refl, tt)), (refl, (refl, refl, tt), (refl, tt, tt))),
  ),
)

after_two :
    drop 2 (rows_of "alice" five.tables.transactions) ≡ row "01C" ∷ row "01B" ∷ row "01A" ∷ []
unfolding rows_of
after_two = refl

page_limit_bounds_example :
    (pos 1 ≤ℤ page_limit (pos 7))
    × (page_limit (pos 7) ≤ℤ pos 100)
    × (pos 1 ≤ℤ pos 7 → pos 7 ≤ℤ pos 100 → page_limit (pos 7) ≡ pos 7)
page_limit_bounds_example = page_limit_bounds (pos 7)

first_page_lem_example :
    Ensures
      (PageFrom memory listing "alice" 2 (rows_of "alice" five.tables.transactions) five)
      (λ e (m : Memory).
        rows_of "alice" m.tables.transactions ≡ rows_of "alice" five.tables.transactions)
      (list_page memory background (record { user_id = "alice"; cursor = ""; limit = pos 2 }) five)
first_page_lem_example = first_page_lem memory listing "alice" 2 (omega arith) (omega arith) five

named : (row "01C").id ≢ ""
named e = ground (arith, ap (λ (t : String). str_eq t "") e)

-- Pages of two rows: the row 01C is on neither of the first two pages.
next_page_skips_example :
    Ensures
      (SkipsRow memory listing "alice" 2 2 (row "01C") (row "01B" ∷ row "01A" ∷ []) five)
      (λ e (m : Memory).
        rows_of "alice" m.tables.transactions ≡ rows_of "alice" five.tables.transactions)
      (list_page memory background (record { user_id = "alice"; cursor = ""; limit = pos 2 }) five)
next_page_skips_example =
    next_page_skips memory listing "alice" 2 2 (row "01C") (row "01B" ∷ row "01A" ∷ []) five
      (omega arith) (omega arith) (omega arith) (omega arith) five-Descending after_two named
