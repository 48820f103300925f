-- ===== src/Mysql/Effects.antt =====
-- What each repository method does to the tables, from the contract.
use mileage_core.Base.{
  ℕ, String, ◌≡◌, refl, ◌≢◌, inl, inr, Option, none, some, [], ◌∷◌, ◌++◌, ◌==◌, Bool-cases, arith,
}
use mileage_core.Base.Int.{ℤ, pos, ◌+ℤ◌}
use mileage_core.Base.Int64.{IsInt64}
use mileage_core.Errors.{DriverError, no_rows, redis_nil, mysql_error, other_error, Error}
use mileage_core.Effect.{Ensures, returned, failed}
use mileage_core.Domain.{MileageTransaction}
use mileage_core.Domain.Account.{MileageAccount}
use mileage_core.Mysql.Rows.{AccountRow, account_of, to_domain}
use mileage_core.Mysql.Tx.{Context, background, with_tx, executed}
use mileage_core.Mysql.MileageRepository.{
  row_or_nil, lock_result, update_result, insert_error, get_account, update_balance,
  insert_transaction, find_transaction_by_idempotency_key,
}
use mileage_core.Mysql.Contract.{Server, On, new_view, row_of, updated_row}
use mileage_core.Platform.{Platform, Reply, done, refused, SqlResult}
use mileage_core.Tables.{Tables, insert_row, update_row, find_row}

-- A nil pointer stands for a row that is not there, a pointer for one that is.
abbrev pub Found : {R A : Type 0} → (R → A) → (R → Type 0) → Type 0 → Option A → Type 0
Found {R = R} f P N none = N
Found {R = R} f P N (some a) = (row : R) × (a ≡ f row) × P row

pub row_or_nil_lem :
    {W R A : Type 0} (f : R → A) (prefix : String) (P : R → W → Type 0) (N : W → Type 0)
    (X : W → Type 0) (r : Reply R) (w : W)
    → X w
    → On r (λ row. P row w) (λ d. d ≡ no_rows → N w)
    → Ensures
        (λ found w'. X w' × Found f (λ row. P row w') (N w') found)
        (λ e w'. X w')
        (row_or_nil f prefix r w)
row_or_nil_lem f prefix P N X (done row) w x h = returned (x, (row, refl, h))
row_or_nil_lem f prefix P N X (refused no_rows) w x h = returned (x, h refl)
row_or_nil_lem f prefix P N X (refused redis_nil) w x h = failed x
row_or_nil_lem f prefix P N X (refused (mysql_error n m)) w x h = failed x
row_or_nil_lem f prefix P N X (refused (other_error m)) w x h = failed x

pub executed_lem :
    {W A : Type 0} (g : DriverError → Error) (P : W → Type 0) (X : W → Type 0) (r : Reply A) (w : W)
    → X w
    → On r (λ a. P w) (λ d. Unit {0})
    → Ensures (λ u w'. X w' × P w') (λ e w'. X w') (executed g r w)
executed_lem g P X (done a) w x h = returned (x, h)
executed_lem g P X (refused d) w x h = failed x

lock_result_lem :
    {W : Type 0} (Z : ℕ → Type 0) (P : W → Type 0) (X : W → Type 0) (r : Reply ℕ) (w : W)
    → X w
    → On r (λ rows. Z rows × (rows ≢ 0 → P w)) (λ d. Unit {0})
    → Ensures (λ u w'. X w' × P w') (λ e w'. X w') (lock_result r w)
lock_result_lem Z P X (done rows) w x h = elim (Bool-cases (rows == 0)) [
  | inl none_counted ↦ rw none_counted (failed x)
  | inr counted ↦ rw counted (returned (x, h.1 (ground arith)))
]
lock_result_lem Z P X (refused d) w x h = failed x

-- UpdateBalance succeeds only if a row was counted.
update_result_lem :
    {W : Type 0} (Z : ℕ → Type 0) (P : W → Type 0) (X : W → Type 0) (r : Reply SqlResult) (w : W)
    → X w
    → On r
        (λ res. On res.rows_affected (λ rows. Z rows × (rows ≢ 0 → P w)) (λ d. Unit {0}))
        (λ d. Unit {0})
    → Ensures (λ u w'. X w' × P w') (λ e w'. X w') (update_result r w)
update_result_lem Z P X (done res) w x h = lock_result_lem Z P X res.rows_affected w x h
update_result_lem Z P X (refused d) w x h = failed x

module _ (p : Platform) (s : Server p) where
  open p use {World, Tx, commit}
  open s use {committed, view, same, Others}

  -- The account row that a SELECT shows.
  abbrev pub Shown : String → Tables → AccountRow → Type 0
  Shown user t row = (t.accounts user ≡ some row) × IsInt64 row.balance × IsInt64 row.version

  abbrev pub FoundAccount : String → Tables → Option MileageAccount → Type 0
  FoundAccount user t = Found account_of (Shown user t) (t.accounts user ≡ none)

  -- GetAccount as the first statement of a transaction.
  pub get_account-with_tx :
      (ctx : Context Tx) (t : Tx) (user : String) (w : World)
      → view t w ≡ new_view
      → Ensures
          (λ found w'.
            (Others (committed w) (committed w') × ((view t w').writes ≡ []))
            × FoundAccount user (committed w') found)
          (λ e w'. Others (committed w) (committed w') × ((view t w').writes ≡ []))
          (get_account p (with_tx ctx t) user w)
  unfolding get_account
  get_account-with_tx ctx t user w fresh =
      let (others, kept, shown) = s.select_in_tx_law t user w fresh in
      row_or_nil_lem account_of "get account" (λ row w'. Shown user (committed w') row)
        (λ w'. (committed w').accounts user ≡ none)
        (λ w'. Others (committed w) (committed w') × ((view t w').writes ≡ [])) _ _ (others, kept)
        shown

  -- GetAccount outside a transaction.
  pub get_account-background :
      (user : String) (w : World)
      → Ensures
          (λ found w'. Others (committed w) (committed w') × FoundAccount user (committed w') found)
          (λ e w'. Others (committed w) (committed w'))
          (get_account p background user w)
  unfolding get_account
  get_account-background user w =
      let (others, shown) = s.select_account_law user w in
      row_or_nil_lem account_of "get account" (λ row w'. Shown user (committed w') row)
        (λ w'. (committed w').accounts user ≡ none) (λ w'. Others (committed w) (committed w')) _ _
        others shown

  abbrev pub FoundTransaction :
      String → String → String → Tables → Option MileageTransaction → Type 0
  FoundTransaction user key kind t =
      Found to_domain (λ row. find_row same user key kind t.transactions ≡ some row)
        (find_row same user key kind t.transactions ≡ none)

  -- FindTransactionByIdempotencyKey outside a transaction.
  pub find_transaction_lem :
      (user key kind : String) (w : World)
      → Ensures
          (λ found w'.
            Others (committed w) (committed w')
            × FoundTransaction user key kind (committed w') found)
          (λ e w'. Others (committed w) (committed w'))
          (find_transaction_by_idempotency_key p background user key kind w)
  unfolding find_transaction_by_idempotency_key
  find_transaction_lem user key kind w =
      let (others, shown) = s.find_law user key kind w in
      row_or_nil_lem to_domain "find transaction by idempotency key"
        (λ row w'. find_row same user key kind (committed w').transactions ≡ some row)
        (λ w'. find_row same user key kind (committed w').transactions ≡ none)
        (λ w'. Others (committed w) (committed w')) _ _ others shown

  -- InsertTransaction in a transaction.
  pub insert_transaction_lem :
      (ctx : Context Tx) (t : Tx) (m : MileageTransaction) (w : World)
      → Ensures
          (λ u w'.
            Others (committed w) (committed w')
            × ((created : Option ℕ) × ((view t w').writes
                  ≡ (view t w).writes ++ (insert_row (row_of m created) ∷ []))))
          (λ e w'. Others (committed w) (committed w'))
          (insert_transaction p (with_tx ctx t) m w)
  unfolding insert_transaction
  insert_transaction_lem ctx t m w =
      let (others, wrote) = s.insert_law t m w in
      executed_lem insert_error
        (λ w'.
          (created : Option ℕ) × ((view t w').writes
            ≡ (view t w).writes ++ (insert_row (row_of m created) ∷ [])))
        (λ w'. Others (committed w) (committed w')) _ _ others wrote

  -- UpdateBalance in a transaction.
  pub update_balance_lem :
      (ctx : Context Tx) (t : Tx) (user : String) (balance version : ℤ) (w : World)
      → Ensures
          (λ u w'.
            Others (committed w) (committed w')
            × ((row : AccountRow) × (updated : Option ℕ) × ((committed w').accounts user ≡ some row)
                × (row.version ≡ version)
                × IsInt64 (row.version +ℤ pos 1)
                × ((view t w').writes
                    ≡ (view t w).writes
                      ++ (update_row user (updated_row row balance updated) ∷ []))))
          (λ e w'. Others (committed w) (committed w'))
          (update_balance p (with_tx ctx t) user balance version w)
  unfolding update_balance
  update_balance_lem ctx t user balance version w =
      let (others, wrote) = s.update_law t user balance version w in
      update_result_lem _
        (λ w'.
          (row : AccountRow) × (updated : Option ℕ) × ((committed w').accounts user ≡ some row)
          × (row.version ≡ version)
          × IsInt64 (row.version +ℤ pos 1)
          × ((view t w').writes
              ≡ (view t w).writes ++ (update_row user (updated_row row balance updated) ∷ [])))
        (λ w'. Others (committed w) (committed w')) _ _ others wrote
