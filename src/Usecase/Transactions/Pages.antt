-- ===== src/Usecase/Transactions/Pages.antt =====
-- Which transactions a page holds, and what following its cursor gives.
use text.Mathlib.Text.{◌==◌ as str_eq}
use mileage_core.Base.{
  ℕ, zero, suc, ◌+◌, ◌≤◌, String, false, ◌≡◌, ◌≢◌, refl, ap, ◌∙◌, List, [], ◌∷◌, ◌++◌, map, take,
  drop, arith,
}
use text.Mathlib.TextEquality.{eq_iff}
use mathlib.Core.List.{append-nil, append_assoc}
use mileage_core.Base.Int.{ℤ, pos, ◌+ℤ◌, ◌≤ℤ◌, int_laws, eq_of_parts, leb_ℤ}
use mileage_core.Base.Int64.{wrap64, wrap64_self}
use mileage_core.Errors.{wrapped}
use mileage_core.Effect.{Ensures, returned, failed, follow, change_error, pure}
use mileage_core.Platform.{Platform, Reply, done, refused}
use mileage_core.Mysql.Rows.{TransactionRow, to_domain}
use mileage_core.Mysql.Tx.{background}
use mileage_core.Mysql.Contract.{On}
use mileage_core.Mysql.Listing.{Listing, rows_below}
use mileage_core.Mysql.MileageRepository.{listed, list_transactions}
use mileage_core.Usecase.Transactions.{
  TransactionItem, TransactionsOutput, page_limit, item_of, collect, list_page,
}

-- The limit is between 1 and 100, and a limit in that range is kept.
pub page_limit_bounds :
    (limit : ℤ)
    → (pos 1 ≤ℤ page_limit limit)
      × (page_limit limit ≤ℤ pos 100)
      × (pos 1 ≤ℤ limit → limit ≤ℤ pos 100 → page_limit limit ≡ limit)
unfolding page_limit
page_limit_bounds limit = ground arith

-- The cursor after the rows of a page: the identifier of the next row, if there is one.
abbrev pub cursor_at : List TransactionRow → String
cursor_at [] = ""
cursor_at (r ∷ rs) = r.id

take-take : (n : ℕ) (rows : List TransactionRow) → take n (take (suc n) rows) ≡ take n rows
take-take zero rows = refl
take-take (suc n) [] = refl
take-take (suc n) (r ∷ rows) = ap (λ xs. r ∷ xs) (take-take n rows)

cursor-take :
    (n : ℕ) (rows : List TransactionRow)
    → cursor_at (drop n (take (suc n) rows)) ≡ cursor_at (drop n rows)
cursor-take zero [] = refl
cursor-take zero (r ∷ rows) = refl
cursor-take (suc n) [] = refl
cursor-take (suc n) (r ∷ rows) = cursor-take n rows

module _ (p : Platform) where
  -- The page of `n` rows that starts a list.
  abbrev pub page_of : ℕ → List TransactionRow → TransactionsOutput
  page_of n rows = record {
    items = map (λ r. item_of p (to_domain r)) (take n rows);
    next_cursor = cursor_at (drop n rows);
  }

  collect_lem :
      (n i : ℕ) (items : List TransactionItem) (rows : List TransactionRow)
      → collect p (pos (i + n)) i items (map to_domain rows) ≡ record {
        items = items ++ map (λ r. item_of p (to_domain r)) (take n rows);
        next_cursor = cursor_at (drop n rows);
      }
  unfolding collect
  collect_lem zero i items [] = rw append-nil
  collect_lem (suc n) i items [] = rw append-nil
  collect_lem zero i items (r ∷ rows) = rw append-nil (ground arith)
  collect_lem (suc n) i items (r ∷ rows) = rw (late i n) (
      ap
        (λ (k : ℕ).
          collect p (pos k) (suc i) (items ++ (item_of p (to_domain r) ∷ [])) (map to_domain rows))
        (shift i n)
      ∙ collect_lem n (suc i) (items ++ (item_of p (to_domain r) ∷ [])) rows
      ∙ rw append_assoc)
    where
      late : (i n : ℕ) → leb_ℤ (pos (i + suc n)) (pos i) ≡ false
      late i n = ground arith

      shift : (i n : ℕ) → i + suc n ≡ suc i + n
      shift i n = omega arith

  -- The loop cuts a list into the page and the cursor.
  collect-page :
      (n : ℕ) (rows : List TransactionRow)
      → collect p (pos n) 0 [] (map to_domain rows) ≡ page_of n rows
  collect-page n rows =
      ap (λ (k : ℕ). collect p (pos k) 0 [] (map to_domain rows)) (zero_add n)
      ∙ collect_lem n 0 [] rows
    where
      zero_add : (n : ℕ) → n ≡ 0 + n
      zero_add n = omega arith

  -- One row more than the page is enough to know the cursor.
  page_of-take :
      (n : ℕ) (rows : List TransactionRow) → page_of n (take (suc n) rows) ≡ page_of n rows
  page_of-take n rows = λ i. record {
    items = map (λ r. item_of p (to_domain r)) (take-take n rows i);
    next_cursor = cursor-take n rows i;
  }

  module _ (l : Listing p) (u : String) where
    open p use {World}
    open l use {history, below}

    -- The outcome of a page over the rows that the statement selects.
    abbrev pub PageFrom : ℕ → List TransactionRow → World → TransactionsOutput → World → Type 0
    PageFrom n rows w out w' = (history w' u ≡ history w u) × (out ≡ page_of n rows)

    listed_lem :
        (prefix : String) (n : ℕ) (rows : List TransactionRow) (w w' : World)
        (r : Reply (List TransactionRow))
        → (history w' u ≡ history w u)
        → On r (λ found. found ≡ take (suc n) rows) (λ d. Unit {0})
        → Ensures
            (PageFrom n rows w)
            (λ e w'. history w' u ≡ history w u)
            (follow
              (change_error (wrapped "list transactions") (listed prefix r w'))
              (λ found. pure (collect p (pos n) 0 [] found)))
    listed_lem prefix n rows w w' (done found) same is =
        returned (same, rw is (collect-page n (take (suc n) rows) ∙ page_of-take n rows))
    listed_lem prefix n rows w w' (refused d) same is = failed same

    module _ (n : ℕ) (low : 1 ≤ n) (high : n ≤ 100) where
      limit_kept : page_limit (pos n) ≡ pos n
      limit_kept = (page_limit_bounds (pos n)).2 (omega arith) (omega arith)

      one_more : wrap64 (pos n +ℤ pos 1) ≡ pos (suc n)
      one_more = wrap64_self (pos n +ℤ pos 1) (omega int_laws) ∙ eq_of_parts _ _ (omega int_laws)

      -- For a limit n between 1 and 100 and no cursor, a page is the first n rows of the user's
      -- history, in order, with the identifier of the row after them as the cursor, or an empty
      -- cursor where there is none. Result or error, the history stays as it is.
      pub first_page_lem :
          (w : World)
          → Ensures
              (PageFrom n (history w u) w)
              (λ e w'. history w' u ≡ history w u)
              (list_page p background (record { user_id = u; cursor = ""; limit = pos n }) w)
      unfolding list_page list_transactions
      first_page_lem w =
          let (same, rows) = l.list_first_law u (suc n) w in
          rw (limit_kept, one_more) (listed_lem "list transactions" n (history w u) w _ _ same rows)

      -- A page after a cursor holds the rows with an identifier below it.
      pub next_page_lem :
          (cursor : String) (w : World)
          → cursor ≢ ""
          → Ensures
              (PageFrom n (rows_below below cursor (history w u)) w)
              (λ e w'. history w' u ≡ history w u)
              (list_page p background (record { user_id = u; cursor = cursor; limit = pos n }) w)
      unfolding list_page list_transactions
      next_page_lem cursor w given =
          let (same, rows) = l.list_after_law u cursor (suc n) w in
          let after : str_eq cursor "" ≡ false = ground (arith, eq_iff cursor "") in
          rw (limit_kept, one_more, after)
            (listed_lem "list transactions with cursor" n (rows_below below cursor (history w u)) w
              _ _ same rows)
