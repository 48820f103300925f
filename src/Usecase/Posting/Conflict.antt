-- ===== src/Usecase/Posting/Conflict.antt =====
-- The retry loop of grant.go and redeem.go, when other clients win the race for the version.
use mileage_core.Base.{
  ℕ, zero, suc, true, false, ◌≡◌, ◌↔◌, ◌⊎◌, refl, sym, ap, inl, inr, Option, none, some, Bool-cases,
}
use mileage_core.Errors.{Error, wrapped, errors_is, optimistic_lock}
use mileage_core.Effect.{Outcome, returns, fails, panics}
use mileage_core.Platform.{Platform}
use mileage_core.Mysql.Tx.{Context}
use mileage_core.Usecase.Posting.{
  PostingInput, PostingOutput, Flow, max_retries, execute_in_tx, attempts,
}

Outcome-cases :
    {W A : Type 0} (o : Outcome W A)
    → ((a : A) × (w : W) × (o ≡ returns a w))
      ⊎ ((e : Error) × (w : W) × (o ≡ fails e w))
      ⊎ ((w : W) × (o ≡ panics w))
Outcome-cases (returns a w) = inl (a, w, refl)
Outcome-cases (fails e w) = inr (inl (e, w, refl))
Outcome-cases (panics w) = inr (inr (w, refl))

error_of : {W A : Type 0} → Error → Outcome W A → Error
error_of e (fails x w) = x
error_of e _ = e

world_of : {W A : Type 0} → Outcome W A → W
world_of (returns a w) = w
world_of (fails x w) = w
world_of (panics w) = w

fails_eq :
    {W A : Type 0} {e e' : Error} {w w' : W}
    → ◌≡◌ {A = Outcome W A} (fails e w) (fails e' w')
    → (e ≡ e') × (w ≡ w')
unfolding error_of world_of
fails_eq {e = e} is = (ap (error_of e) is, ap world_of is)

module _ (p : Platform) (flow : Flow) (ctx : Context p.Tx) (input : PostingInput) where
  open p use {World}

  -- So many attempts in a row, each a transaction of its own that is refused because the version
  -- has changed, from the first world to the last. The error is that of the last attempt.
  abbrev pub Lost : ℕ → Option Error → World → Error → World → Type 0
  Lost zero last w e w' = (last ≡ some e) × (w ≡ w')
  Lost (suc n) last w e w' =
      (x : Error) × (v : World) × (execute_in_tx p flow ctx input w ≡ fails x v)
      × (errors_is x optimistic_lock ≡ true)
      × Lost n (some x) v e w'

  -- Lost attempts end in the error of the last one, with the flow's text before it.
  pub Lost-fails :
      (n : ℕ) (last : Option Error) (w : World) (e : Error) (w' : World)
      → Lost n last w e w'
      → attempts p flow n last ctx input w ≡ fails (wrapped flow.failure e) w'
  unfolding attempts
  Lost-fails zero last w e w' (is, same) = rw (is, same) refl
  Lost-fails (suc n) last w e w' (x, v, failed, lock, rest) =
      rw (failed, lock) (Lost-fails n (some x) v e w' rest)

  lock-Lost :
      (n : ℕ) (last : Option Error) (w : World) (e : Error) (w' : World)
      → attempts p flow n last ctx input w ≡ fails e w'
      → errors_is e optimistic_lock ≡ true
      → (x : Error) × (e ≡ wrapped flow.failure x) × Lost n last w x w'
  unfolding attempts
  lock-Lost zero none w e w' ended lock = absurd cc
  lock-Lost zero (some x) w e w' ended lock =
      let (is, same) = fails_eq ended in (x, sym is, (refl, same))
  lock-Lost (suc n) last w e w' ended lock =
      elim (Outcome-cases (execute_in_tx p flow ctx input w)) [
        | inl (a, v, is) ↦ absurd (cc (rw is at ended))
        | inr (inr (v, is)) ↦ absurd (cc (rw is at ended))
        | inr (inl (x, v, is)) ↦ elim (Bool-cases (errors_is x optimistic_lock)) [
          | inl again ↦
              let (y, named, rest) = lock-Lost n (some x) v e w' (rw (is, again) at ended) lock in
              (y, named, (x, v, is, again, rest))
          | inr other ↦ absurd (stops x v other (rw (is, other) at ended))
        ]
      ]
    where
      stops :
          (x : Error) (v : World)
          → errors_is x optimistic_lock ≡ false
          → ◌≡◌ {A = Outcome World PostingOutput} (fails x v) (fails e w')
          → ⊥
      stops x v other same = cc ((fails_eq same).0)

  pub Lost-lock :
      (n : ℕ) (last : Option Error) (w : World) (e : Error) (w' : World)
      → ((x : Error) → last ≡ some x → errors_is x optimistic_lock ≡ true)
      → Lost n last w e w'
      → errors_is e optimistic_lock ≡ true
  Lost-lock zero last w e w' before (is, same) = before e is
  Lost-lock (suc n) last w e w' before (x, v, failed, lock, rest) =
      Lost-lock n (some x) v e w' (λ y is. cc) rest

  -- Execute's loop ends with an error that is ErrOptimisticLock exactly if three attempts in a row
  -- were transactions that failed with such an error; the loop's error then wraps the last of them.
  pub attempts_lock_iff :
      (w w' : World) (e : Error)
      → ((attempts p flow max_retries none ctx input w ≡ fails e w')
          × (errors_is e optimistic_lock ≡ true))
        ↔ ((x : Error) × (e ≡ wrapped flow.failure x) × Lost max_retries none w x w')
  unfolding errors_is
  attempts_lock_iff w w' e = (
    (λ h. lock-Lost max_retries none w e w' h.0 h.1),
    λ (x, is, lost). (
      rw is (Lost-fails max_retries none w x w' lost),
      rw is (Lost-lock max_retries none w x w' (λ y none_is. absurd (cc)) lost),
    ),
  )
