-- ===== src/Mysql/Calm.antt =====
-- A database that works, with no other client: what it takes for the statements of a posting to
-- succeed.
use mileage_core.Base.{ℕ, String, ◌≡◌, ◌≢◌, none, some, [], ◌∷◌, ◌==◌, Bool-cases, inl, inr, arith}
use mileage_core.Base.Int.{ℤ, pos, ◌+ℤ◌}
use mileage_core.Base.Int64.{IsInt64}
use mileage_core.Errors.{DriverError, no_rows, redis_nil, mysql_error, other_error, Error}
use mileage_core.Effect.{Outcome, Ensures, returned, failed}
use mileage_core.Domain.{MileageTransaction}
use mileage_core.Mysql.Rows.{AccountRow}
use mileage_core.Mysql.Tx.{Context, background, with_tx, executed}
use mileage_core.Mysql.MileageRepository.{
  select_account_sql, update_balance_sql, insert_transaction_sql, find_transaction_sql,
  insert_arguments, row_or_nil, lock_result, update_result, insert_error, get_account,
  update_balance, insert_transaction, find_transaction_by_idempotency_key,
}
use mileage_core.Mysql.Contract.{Server, On}
use mileage_core.Platform.{Platform, Reply, done, refused, SqlResult, on_db, on_tx, varchar, bigint}
use mileage_core.Tables.{Tables, find_row, AllLocked}

-- A call that returns a value.
abbrev pub Works : {W A : Type 0} → Outcome W A → Type 0
Works o = Ensures (λ a w. Unit {0}) (λ e w. ⊥) o

-- What is known of a call that returns a value.
pub Ensures-total :
    {W A : Type 0} {P : A → W → Type 0} {Q : Error → W → Type 0} {o : Outcome W A}
    → Works o
    → Ensures P Q o
    → Ensures P (λ e w. ⊥) o
Ensures-total (returned u) (returned h) = returned h
Ensures-total (failed b) h = absurd b

abbrev pub IsDone : {A : Type 0} → Reply A → Type 0
IsDone r = On r (λ a. Unit {0}) (λ d. ⊥)

-- A SELECT of one row that has a row or none.
abbrev pub IsRead : {A : Type 0} → Reply A → Type 0
IsRead r = On r (λ a. Unit {0}) (λ d. d ≡ no_rows)

pub record Calm (p : Platform) (s : Server p) : Type 1 where
  pub only_client : (a b : Tables) → s.Others a b → a ≡ b
  -- A transaction that the table takes but for its key: the texts fit their columns, the identifier,
  -- which is the primary key, is not taken, and the user is there for the foreign key.
  pub Fits : MileageTransaction → Type 0
  pub begins : (w : p.World) → IsDone (p.begin_txx w).0
  -- A COMMIT succeeds if no key that it inserts is taken.
  pub commits :
      (t : p.Tx) (w : p.World)
      → AllLocked s.same (s.committed w) (s.committed w) (s.view t w).writes
      → IsDone (p.commit t w).0
  pub selects :
      (t : p.Tx) (u : String) (w : p.World) (row : AccountRow)
      → (s.committed w).accounts u ≡ some row
      → IsInt64 row.balance
      → IsInt64 row.version
      → IsRead (p.get_account_row (on_tx t) select_account_sql (varchar u ∷ []) w).0
  pub selects_outside :
      (u : String) (w : p.World) (row : AccountRow)
      → (s.committed w).accounts u ≡ some row
      → IsInt64 row.balance
      → IsInt64 row.version
      → IsRead (p.get_account_row on_db select_account_sql (varchar u ∷ []) w).0
  pub finds :
      (u key kind : String) (w : p.World)
      → IsRead
          (p.get_transaction_row on_db find_transaction_sql
            (varchar u ∷ varchar key ∷ varchar kind ∷ [])
            w).0
  -- An INSERT of such a transaction under a free key, as the first write.
  pub inserts :
      (t : p.Tx) (m : MileageTransaction) (w : p.World)
      → Fits m
      → (s.view t w).writes ≡ []
      → find_row s.same m.user_id m.idempotency_key m.kind (s.committed w).transactions ≡ none
      → IsDone (p.exec_context (on_tx t) insert_transaction_sql (insert_arguments m) w).0
  -- An UPDATE of the row under the version that it has.
  pub updates :
      (t : p.Tx) (u : String) (balance version : ℤ) (w : p.World) (row : AccountRow)
      → (s.committed w).accounts u ≡ some row
      → row.version ≡ version
      → IsInt64 balance
      → IsInt64 (version +ℤ pos 1)
      → On
          (p.exec_context
            (on_tx t)
            update_balance_sql
            (bigint balance ∷ varchar u ∷ bigint version ∷ [])
            w).0
          (λ res. On res.rows_affected (λ rows. rows ≢ 0) (λ d. ⊥))
          (λ d. ⊥)

row_or_nil-Works :
    {W R A : Type 0} (f : R → A) (prefix : String) (r : Reply R) (w : W)
    → IsRead r
    → Works (row_or_nil f prefix r w)
row_or_nil-Works f prefix (done row) w h = returned tt
row_or_nil-Works f prefix (refused no_rows) w h = returned tt
row_or_nil-Works f prefix (refused redis_nil) w h = absurd cc
row_or_nil-Works f prefix (refused (mysql_error n m)) w h = absurd cc
row_or_nil-Works f prefix (refused (other_error m)) w h = absurd cc

executed-Works :
    {W A : Type 0} (g : DriverError → Error) (r : Reply A) (w : W)
    → IsDone r
    → Works (executed g r w)
executed-Works g (done a) w h = returned tt
executed-Works g (refused d) w h = absurd h

lock_result-Works :
    {W : Type 0} (r : Reply ℕ) (w : W) → On r (λ rows. rows ≢ 0) (λ d. ⊥) → Works (lock_result r w)
lock_result-Works (done rows) w h = elim (Bool-cases (rows == 0)) [
  | inl none_counted ↦ absurd (h (ground arith))
  | inr counted ↦ rw counted (returned tt)
]
lock_result-Works (refused d) w h = absurd h

update_result-Works :
    {W : Type 0} (r : Reply SqlResult) (w : W)
    → On r (λ res. On res.rows_affected (λ rows. rows ≢ 0) (λ d. ⊥)) (λ d. ⊥)
    → Works (update_result r w)
update_result-Works (done res) w h = lock_result-Works res.rows_affected w h
update_result-Works (refused d) w h = absurd h

module _ (p : Platform) (s : Server p) (calm : Calm p s) (ctx : Context p.Tx) (t : p.Tx) where
  pub get_account-Works :
      (u : String) (w : p.World) (row : AccountRow)
      → (s.committed w).accounts u ≡ some row
      → IsInt64 row.balance
      → IsInt64 row.version
      → Works (get_account p (with_tx ctx t) u w)
  unfolding get_account
  get_account-Works u w row stored balance version =
      row_or_nil-Works _ _ _ _ (calm.selects t u w row stored balance version)

  pub insert_transaction-Works :
      (m : MileageTransaction) (w : p.World)
      → calm.Fits m
      → (s.view t w).writes ≡ []
      → find_row s.same m.user_id m.idempotency_key m.kind (s.committed w).transactions ≡ none
      → Works (insert_transaction p (with_tx ctx t) m w)
  unfolding insert_transaction
  insert_transaction-Works m w fits clean fresh =
      executed-Works insert_error _ _ (calm.inserts t m w fits clean fresh)

  pub update_balance-Works :
      (u : String) (balance version : ℤ) (w : p.World) (row : AccountRow)
      → (s.committed w).accounts u ≡ some row
      → row.version ≡ version
      → IsInt64 balance
      → IsInt64 (version +ℤ pos 1)
      → Works (update_balance p (with_tx ctx t) u balance version w)
  unfolding update_balance
  update_balance-Works u balance version w row stored at_version fits range =
      update_result-Works _ _ (calm.updates t u balance version w row stored at_version fits range)

pub get_account-background-Works :
    (p : Platform) (s : Server p) (calm : Calm p s) (u : String) (w : p.World) (row : AccountRow)
    → (s.committed w).accounts u ≡ some row
    → IsInt64 row.balance
    → IsInt64 row.version
    → Works (get_account p background u w)
unfolding get_account
get_account-background-Works p s calm u w row stored balance version =
    row_or_nil-Works _ _ _ _ (calm.selects_outside u w row stored balance version)

pub find_transaction-Works :
    (p : Platform) (s : Server p) (calm : Calm p s) (u key kind : String) (w : p.World)
    → Works (find_transaction_by_idempotency_key p background u key kind w)
unfolding find_transaction_by_idempotency_key
find_transaction-Works p s calm u key kind w = row_or_nil-Works _ _ _ _ (calm.finds u key kind w)
