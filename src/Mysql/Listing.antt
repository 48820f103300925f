-- ===== src/Mysql/Listing.antt =====
-- What the list of transactions relies on of MySQL: the order that ORDER BY gives, and the
-- comparison of identifiers.
use mileage_core.Base.{ℕ, String, Bool, ◌≡◌, List, [], ◌∷◌, take, if◌then◌else◌}
use mileage_core.Base.Int.{pos}
use mileage_core.Mysql.Rows.{TransactionRow}
use mileage_core.Mysql.MileageRepository.{list_first_sql, list_after_sql}
use mileage_core.Mysql.Contract.{On}
use mileage_core.Platform.{Platform, on_db, varchar, bigint}

-- The rows with an identifier below the cursor.
unfoldable pub rows_below :
    (String → String → Bool) → String → List TransactionRow → List TransactionRow
rows_below below cursor [] = []
rows_below below cursor (r ∷ rs) =
    let rest = rows_below below cursor rs in if below r.id cursor then r ∷ rest else rest

pub record Listing (p : Platform) : Type 0 where
  -- The committed transactions of a user, by created_at from the newest.
  pub history : p.World → String → List TransactionRow
  -- `<` on identifiers, and that a SELECT leaves the history alone.
  pub below : String → String → Bool
  pub list_first_law :
      (u : String) (n : ℕ) (w : p.World)
      → let (r, w') =
          p.select_transaction_rows on_db list_first_sql (varchar u ∷ bigint (pos n) ∷ []) w in
        (history w' u ≡ history w u) × On r (λ rows. rows ≡ take n (history w u)) (λ d. Unit {0})
  pub list_after_law :
      (u cursor : String) (n : ℕ) (w : p.World)
      → let (r, w') =
          p.select_transaction_rows on_db list_after_sql
            (varchar u ∷ varchar cursor ∷ bigint (pos n) ∷ [])
            w in
        (history w' u ≡ history w u)
        × On r (λ rows. rows ≡ take n (rows_below below cursor (history w u))) (λ d. Unit {0})
