-- ===== src/Usecase/Transactions/Cursor.antt =====
-- Following the cursor: the next page begins below the row that the cursor names, so that row is
-- on neither page.
use mileage_core.Base.{
  ℕ, zero, suc, ◌≤◌, String, Bool, true, false, ◌≡◌, ◌≢◌, refl, sym, ap, ◌∙◌, List, [], ◌∷◌, drop,
}
use mileage_core.Base.Int.{pos}
use mileage_core.Effect.{Ensures, Ensures-weaken}
use mileage_core.Platform.{Platform}
use mileage_core.Mysql.Rows.{TransactionRow}
use mileage_core.Mysql.Tx.{background}
use mileage_core.Mysql.Listing.{Listing, rows_below}
use mileage_core.Usecase.Transactions.{TransactionsOutput, list_page}
use mileage_core.Usecase.Transactions.Pages.{page_of, cursor_at, first_page_lem, next_page_lem}

module _ (below : String → String → Bool) where
  -- Every identifier of the list is below this one, and this one below none.
  abbrev pub AllBelow : String → List TransactionRow → Type 0
  AllBelow id [] = Unit
  AllBelow id (r ∷ rs) = (below r.id id ≡ true) × (below id r.id ≡ false) × AllBelow id rs

  -- The identifiers fall along the list, as those of ULIDs do from the newest to the oldest.
  abbrev pub Descending : List TransactionRow → Type 0
  Descending [] = Unit
  Descending (r ∷ rs) = (below r.id r.id ≡ false) × AllBelow r.id rs × Descending rs

  rows_below_all :
      (id : String) (rs : List TransactionRow) → AllBelow id rs → rows_below below id rs ≡ rs
  unfolding rows_below
  rows_below_all id [] h = refl
  rows_below_all id (r ∷ rs) h = rw (h.0) (ap (λ xs. r ∷ xs) (rows_below_all id rs h.2))

  not_below_later :
      (id : String) (n : ℕ) (rs : List TransactionRow) (r : TransactionRow)
      (rest : List TransactionRow)
      → AllBelow id rs
      → drop n rs ≡ r ∷ rest
      → below id r.id ≡ false
  not_below_later id zero [] r rest h e = cc
  not_below_later id zero (x ∷ rs) r rest h e = let it : x ≡ r = cc in rw (← it) h.1
  not_below_later id (suc n) [] r rest h e = cc
  not_below_later id (suc n) (x ∷ rs) r rest h e = not_below_later id n rs r rest h.2 e

  -- The rows below a row of a falling list are those after it.
  rows_below-drop :
      (n : ℕ) (rs : List TransactionRow) (r : TransactionRow) (rest : List TransactionRow)
      → Descending rs
      → drop n rs ≡ r ∷ rest
      → rows_below below r.id rs ≡ rest
  unfolding rows_below
  rows_below-drop zero [] r rest h e = cc
  rows_below-drop zero (x ∷ rs) r rest h e =
      let it : x ≡ r = cc in
      let tail : rs ≡ rest = cc in
      ap (λ (y : TransactionRow). rows_below below y.id (x ∷ rs)) (sym it)
      ∙ (rw h.0 (rows_below_all x.id rs h.1 ∙ tail))
  rows_below-drop (suc n) [] r rest h e = cc
  rows_below-drop (suc n) (x ∷ rs) r rest h e =
      rw (not_below_later x.id n rs r rest h.1 e) (rows_below-drop n rs r rest h.2 e)

module _ (p : Platform) (l : Listing p) where
  open p use {World}
  open l use {history, below}

  -- A page of n rows and the page of m rows that its cursor leads to, when the row r stands
  -- between the first n rows and the rest: the first page names r as its cursor, and the second
  -- begins with the row after r.
  abbrev pub SkipsRow :
      String
      → ℕ
      → ℕ
      → TransactionRow
      → List TransactionRow
      → World
      → TransactionsOutput
      → World
      → Type 0
  SkipsRow u n m r rest w first w₁ =
      (first ≡ page_of p n (history w u))
      × (first.next_cursor ≡ r.id)
      × Ensures (λ second w₂. second ≡ page_of p m rest) (λ e w₂. history w₂ u ≡ history w u)
          (list_page p background
            (record { user_id = u; cursor = first.next_cursor; limit = pos m }) w₁)

  -- With falling identifiers, when a row with a non-empty identifier follows the first n rows, a
  -- first page of n rows and the page of m rows after its cursor (1 to 100 each) skip that row:
  -- the first page is the first n rows with the row's identifier as cursor, and the second page is
  -- taken from the rows after it. A failed SELECT leaves the history as it is.
  pub next_page_skips :
      (u : String) (n m : ℕ) (r : TransactionRow) (rest : List TransactionRow) (w : World)
      → 1 ≤ n
      → n ≤ 100
      → 1 ≤ m
      → m ≤ 100
      → Descending below (history w u)
      → drop n (history w u) ≡ r ∷ rest
      → r.id ≢ ""
      → Ensures
          (SkipsRow u n m r rest w)
          (λ e w₁. history w₁ u ≡ history w u)
          (list_page p background (record { user_id = u; cursor = ""; limit = pos n }) w)
  next_page_skips u n m r rest w low high low' high' falls at named =
      Ensures-weaken (first_page_lem p l u n low high w)
        (λ first w₁ h. (h.1, cursor first h.1, second first w₁ h.0 (cursor first h.1)))
        (λ e w₁ h. h)
    where
      cursor :
          (first : TransactionsOutput)
          → first ≡ page_of p n (history w u)
          → first.next_cursor ≡ r.id
      cursor first is = ap (λ (o : TransactionsOutput). o.next_cursor) is ∙ ap cursor_at at

      second :
          (first : TransactionsOutput) (w₁ : World)
          → history w₁ u ≡ history w u
          → first.next_cursor ≡ r.id
          → Ensures
              (λ second w₂. second ≡ page_of p m rest)
              (λ e w₂. history w₂ u ≡ history w u)
              (list_page p background
                (record { user_id = u; cursor = first.next_cursor; limit = pos m })
                w₁)
      second first w₁ same is = rw is (
          Ensures-weaken (next_page_lem p l u m low' high' r.id w₁ named)
            (λ out w₂ h.
              h.1
              ∙ ap (page_of p m) (
                  ap (rows_below below r.id) same
                  ∙ rows_below-drop below n (history w u) r rest falls at))
            (λ e w₂ h. h ∙ same))
