-- ===== src/Usecase/Posting/Attempts.antt =====
-- The attempts of a posting, and the cache entry that is dropped after them, against the contract
-- of the database.
use mileage_core.Base.{
  ℕ, zero, suc, true, false, ◌≡◌, refl, ◌⊎◌, inl, inr, Option, some, Bool-cases,
}
use mileage_core.Errors.{Error, wrapped, driver, errors_is, optimistic_lock}
use mileage_core.Effect.{
  Outcome, follow, Ensures, returned, failed, Ensures-weaken, Ensures-on_error, logged, pure,
}
use mileage_core.Mysql.Tx.{Context, executed}
use mileage_core.Mysql.Contract.{Server}
use mileage_core.Mysql.Commit.{Committed, IsCommitError}
use mileage_core.Cache.{invalidate_balance}
use mileage_core.Platform.{Platform, Reply, done, refused}
use mileage_core.Usecase.Posting.{PostingInput, PostingOutput, Flow, attempts, invalidated}
use mileage_core.Usecase.Posting.Transaction.{Posted, execute_in_tx_lem}

module _ (p : Platform) (s : Server p) (flow : Flow) where
  open p use {World, Tx}
  open s use {committed, view, same, Others}

  module _ (input : PostingInput) where
    -- A posting by this call, among what others do before and after it.
    abbrev pub Effected : World → PostingOutput → World → Type 0
    Effected w out w' =
        (v : World) × Committed p s (Posted flow input) w out v
        × Others (committed v) (committed w')

    -- A call that fails has posted nothing, unless the commit itself failed.
    abbrev pub Unposted : World → Error → World → Type 0
    Unposted w e w' =
        Others (committed w) (committed w')
        ⊎ ((out : PostingOutput) × IsCommitError p s e × Effected w out w')

    pub later :
        (w v w' : World) (e : Error)
        → Others (committed w) (committed v)
        → Unposted v e w'
        → Unposted w e w'
    later w v w' e o (inl h) = inl (s.others_trans _ _ _ o h)
    later w v w' e o (inr (out, failure, (u, (writes, ending, to_end, posted, applied), after))) =
        inr (
          out,
          failure,
          (u, (writes, ending, s.others_trans _ _ _ o to_end, posted, applied), after),
        )

    pub later_effect :
        (w v w' : World) (out : PostingOutput)
        → Others (committed w) (committed v)
        → Effected v out w'
        → Effected w out w'
    later_effect w v w' out o (u, (writes, ending, to_end, posted, applied), after) =
        (u, (writes, ending, s.others_trans _ _ _ o to_end, posted, applied), after)

    -- The error of a failed commit is not retried.
    commit_error_stops : (e : Error) → IsCommitError p s e → errors_is e optimistic_lock ≡ false
    unfolding errors_is
    commit_error_stops e (d, is) = rw is refl

    abbrev Attempted : World → Outcome World PostingOutput → Type 0
    Attempted w o = Ensures (Effected w) (Unposted w) o

    unposted :
        (w : World) (e : Error) (v : World)
        → Others (committed w) (committed v)
          ⊎ ((out : PostingOutput) × IsCommitError p s e
              × Committed p s (Posted flow input) w out v)
        → Unposted w e v
    unposted w e v (inl o) = inl o
    unposted w e v (inr (out, failure, made)) = inr (out, failure, (v, made, s.others_refl _))

    again :
        (w v : World) (e : Error) {o : Outcome World PostingOutput}
        → errors_is e optimistic_lock ≡ true
        → Unposted w e v
        → Attempted v o
        → Attempted w o
    again w v e lock (inl o) h =
        Ensures-weaken h (λ out w' k. later_effect w v w' out o k) (λ e' w' k. later w v w' e' o k)
    again w v e lock (inr (out, failure, made)) h = absurd (cc (commit_error_stops e failure))

    pub attempt_lem :
        (n : ℕ) (last : Option Error) (ctx : Context Tx) (w : World)
        → ((e : Error) (v : World) → Attempted v (attempts p flow n (some e) ctx input v))
        → Attempted w (attempts p flow (suc n) last ctx input w)
    unfolding attempts
    attempt_lem n last ctx w rest =
        Ensures-on_error
          (Ensures-weaken (execute_in_tx_lem p s flow ctx input w)
            (λ out v h. (v, h, s.others_refl _)) (λ e v h. unposted w e v h))
          _
          (λ e v h. elim (Bool-cases (errors_is e optimistic_lock)) [
            | inl lock ↦ rw lock (again w v e lock h (rest e v))
            | inr other ↦ rw other (failed h)
          ])

    pub attempts_lem :
        (n : ℕ) (e : Error) (ctx : Context Tx) (w : World)
        → Attempted w (attempts p flow n (some e) ctx input w)
    unfolding attempts
    attempts_lem zero e ctx w = failed (inl (s.others_refl _))
    attempts_lem (suc n) e ctx w = attempt_lem n (some e) ctx w (λ e' v. attempts_lem n e' ctx v)

    -- Dropping the cache entry leaves the tables to others, whether it succeeds or not.
    pub invalidated_lem :
        (w v : World) (out : PostingOutput)
        → Effected w out v
        → Ensures (Effected w) (Unposted w) (invalidated p flow input out v)
    unfolding invalidate_balance
    invalidated_lem w v out (u, made, o) = dropped _ _ (s.redis_del_law _ v)
      where
        dropped :
            (r : Reply (Unit {0})) (v' : World)
            → Others (committed v) (committed v')
            → Ensures (Effected w) (Unposted w) (
                follow
                  (logged (executed (λ d. wrapped "redis del" (driver d)) r v'))
                  (λ x. pure out))
        dropped (done x) v' o' = returned (u, made, s.others_trans _ _ _ o o')
        dropped (refused d) v' o' = returned (u, made, s.others_trans _ _ _ o o')
