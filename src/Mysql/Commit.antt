-- ===== src/Mysql/Commit.antt =====
-- How a transaction ends: RunInTx against the contract.
use mileage_core.Base.{◌≡◌, refl, ◌⊎◌, inl, inr, List}
use mileage_core.Errors.{DriverError, Error, driver, wrapped}
use mileage_core.Effect.{Outcome, Action, Ensures, returned, failed, follow, Ensures-weaken}
use mileage_core.Mysql.Tx.{Context, with_tx, expect, commit_result, finish, run_in_tx}
use mileage_core.Mysql.Contract.{Server, On, new_view, Applied}
use mileage_core.Platform.{Platform, Reply, done, refused}
use mileage_core.Tables.{Tables, Write}

module _ (p : Platform) (s : Server p) where
  open p use {World, Tx, commit}
  open s use {committed, view, same, Others}

  -- What a transaction has done that ends in a commit: its writes are applied at one point.
  abbrev pub Committed :
      {A : Type 0} → (A → List Write → Tables → Type 0) → World → A → World → Type 0
  Committed P w a w' =
      (writes : List Write) × (ending : Tables) × Others (committed w) ending
      × P a writes ending
      × Applied same Others writes ending (committed w')

  -- The error of a COMMIT that failed, of which the outcome is not known.
  abbrev pub IsCommitError : Error → Type 0
  IsCommitError e = (d : DriverError) × (e ≡ wrapped "commit tx" (driver d))

  module _ {A : Type 0} (P : A → List Write → Tables → Type 0) where
    commit_result_lem :
        (t : Tx) (w v : World) (a : A)
        → Others (committed w) (committed v)
        → P a (view t v).writes (committed v)
        → (r : Reply (Unit {0})) (v' : World)
        → On r
            (λ u. Applied same Others (view t v).writes (committed v) (committed v'))
            (λ d.
              Others (committed v) (committed v')
              ⊎ Applied same Others (view t v).writes (committed v) (committed v'))
        → Ensures
            (Committed P w)
            (λ e w'.
              Others (committed w) (committed w')
              ⊎ ((a : A) × IsCommitError e × Committed P w a w'))
            (commit_result a r v')
    commit_result_lem t w v a others held (done u) v' applied =
        returned ((view t v).writes, committed v, others, held, applied)
    commit_result_lem t w v a others held (refused d) v' (inl missed) =
        failed (inl (s.others_trans _ _ _ others missed))
    commit_result_lem t w v a others held (refused d) v' (inr applied) =
        failed (inr (a, (d, refl), ((view t v).writes, committed v, others, held, applied)))

    finish_lem :
        (t : Tx) (w : World) {o : Outcome World A}
        → Ensures
            (λ a w'. Others (committed w) (committed w') × P a (view t w').writes (committed w'))
            (λ e w'. Others (committed w) (committed w'))
            o
        → Ensures
            (Committed P w)
            (λ e w'.
              Others (committed w) (committed w')
              ⊎ ((a : A) × IsCommitError e × Committed P w a w'))
            (finish p t o)
    unfolding finish
    finish_lem t w (returned {a = a} {w = v} (others, held)) =
        commit_result_lem t w v a others held (commit t v).0 (commit t v).1 (s.commit_law t v)
    finish_lem t w (failed {w = v} others) =
        failed (inl (s.others_trans _ _ _ others (s.rollback_law t v)))

    begun_lem :
        (ctx : Context Tx) (fn : Context Tx → Action World A) (w : World) (r : Reply Tx) (v : World)
        → Others (committed w) (committed v)
        → On r (λ t. view t v ≡ new_view) (λ d. Unit {0})
        → ((t : Tx) (v : World)
            → view t v ≡ new_view
            → Ensures
                (λ a w'.
                  Others (committed v) (committed w') × P a (view t w').writes (committed w'))
                (λ e w'. Others (committed v) (committed w'))
                (fn (with_tx ctx t) v))
        → Ensures
            (Committed P w)
            (λ e w'.
              Others (committed w) (committed w')
              ⊎ ((a : A) × IsCommitError e × Committed P w a w'))
            (follow
              (expect (λ d. wrapped "begin tx" (driver d)) r v)
              (λ t v. finish p t (fn (with_tx ctx t) v)))
    begun_lem ctx fn w (done t) v others fresh body = finish_lem t w (
        Ensures-weaken (body t v fresh) (λ a w' h. (s.others_trans _ _ _ others h.0, h.1))
          (λ e w' h. s.others_trans _ _ _ others h))
    begun_lem ctx fn w (refused d) v others fresh body = failed (inl others)

    -- If the function that RunInTx is given ensures P of its result, its writes and the tables, and
    -- leaves the tables to other clients, then a result of RunInTx means that such writes have been
    -- applied to the committed tables at one point, and an error that nothing has been applied,
    -- unless it is the error of the commit itself.
    pub run_in_tx_lem :
        (ctx : Context Tx) (fn : Context Tx → Action World A) (w : World)
        → ((t : Tx) (v : World)
            → view t v ≡ new_view
            → Ensures
                (λ a w'.
                  Others (committed v) (committed w') × P a (view t w').writes (committed w'))
                (λ e w'. Others (committed v) (committed w'))
                (fn (with_tx ctx t) v))
        → Ensures
            (Committed P w)
            (λ e w'.
              Others (committed w) (committed w')
              ⊎ ((a : A) × IsCommitError e × Committed P w a w'))
            (run_in_tx p ctx fn w)
    unfolding run_in_tx
    run_in_tx_lem ctx fn w body =
        let (others, fresh) = s.begin_law w in
        begun_lem ctx fn w (p.begin_txx w).0 (p.begin_txx w).1 others fresh body
