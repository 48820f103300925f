-- ===== src/Mysql/Tx.antt =====
-- internal/infra/mysql/tx.go: transactions carried by the context, and RunInTx.
use mileage_core.Base.{Option, none, some}
use mileage_core.Errors.{DriverError, Error, driver, wrapped, rollback_failed}
use mileage_core.Effect.{Outcome, returns, fails, panics, Action, follow}
use mileage_core.Platform.{Platform, Reply, done, refused, Querier, on_db, on_tx}

-- context.Context, of which the repositories read only the value under txKey{}.
pub record Context (Tx : Type 0) : Type 0 where
  pub tx : Option Tx

abbrev pub background : {Tx : Type 0} → Context Tx
background = record { tx = none }

-- context.WithValue(ctx, txKey{}, tx)
abbrev pub with_tx : {Tx : Type 0} → Context Tx → Tx → Context Tx
with_tx ctx t = record { tx = some t }

-- GetTx
abbrev pub get_tx : {Tx : Type 0} → Context Tx → Option Tx
get_tx ctx = ctx.tx

-- GetQuerier
abbrev pub get_querier : {Tx : Type 0} → Context Tx → Querier Tx
get_querier ctx = elim (get_tx ctx) [ some t ↦ on_tx t | none ↦ on_db ]

-- A driver's reply, with the error that the caller makes of a failure.
abbrev pub expect : {W A : Type 0} → (DriverError → Error) → Reply A → Action W A
expect g (done a) w = returns a w
expect g (refused d) w = fails (g d) w

-- A driver's reply of which only the error is read.
abbrev pub executed : {W A : Type 0} → (DriverError → Error) → Reply A → Action W (Unit {0})
executed g (done a) w = returns tt w
executed g (refused d) w = fails (g d) w

-- `tx.Commit()` and what is returned after it.
abbrev pub commit_result : {W A : Type 0} → A → Reply (Unit {0}) → Action W A
commit_result a (done u) w = returns a w
commit_result a (refused d) w = fails (wrapped "commit tx" (driver d)) w

-- `tx.Rollback()` and the error that is returned after it.
abbrev pub rolled_back : Error → Reply (Unit {0}) → Error
rolled_back e (done u) = e
rolled_back e (refused d) = rollback_failed d e

module _ (p : Platform) where
  open p use {World, Tx, begin_txx, commit, rollback}

  -- The end of RunInTx, by how the function ended. A panic passes through: nothing is deferred.
  unfoldable pub finish : {A : Type 0} → Tx → Outcome World A → Outcome World A
  finish t (returns a w) = let (r, w') = commit t w in commit_result a r w'
  finish t (fails e w) = let (r, w') = rollback t w in fails (rolled_back e r) w'
  finish t (panics w) = panics w

  -- RunInTx. What the function assigns to captured variables is its result here.
  unfoldable pub run_in_tx :
      {A : Type 0} → Context Tx → (Context Tx → Action World A) → Action World A
  run_in_tx ctx fn w =
      let (r, w') = begin_txx w in
      follow (expect (λ d. wrapped "begin tx" (driver d)) r w')
        (λ t v. finish t (fn (with_tx ctx t) v))
