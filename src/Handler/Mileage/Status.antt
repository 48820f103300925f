-- ===== src/Handler/Mileage/Status.antt =====
-- What the status of a grant or redeem request tells of the tables.
use text.Mathlib.Text.{◌==◌ as str_eq}
use mileage_core.Base.{String, true, ◌≡◌, ◌≢◌, ◌⊎◌, refl, inl, inr, none, some, Bool-cases, arith}
use mileage_core.Base.Int.{pos, leb_ℤ}
use mileage_core.Errors.{
  Error, errors_is, errors_is_only, same_sentinel, already_processed, insufficient_balance,
  optimistic_lock, idempotency_conflict, invalid_amount,
}
use mileage_core.Effect.{Outcome, Ensures, returned, failed}
use mileage_core.Platform.{Platform}
use mileage_core.Tables.{Tables}
use mileage_core.Mysql.Contract.{Server}
use mileage_core.Mysql.Commit.{IsCommitError}
use mileage_core.Usecase.Posting.{PostingInput, PostingOutput, Flow}
use mileage_core.Usecase.Posting.Attempts.{Unposted}
use mileage_core.Usecase.Posting.Execute.{Owned, Answered, execute_lem}
use mileage_core.Handler.{Request, Response}
use mileage_core.Handler.Mileage.{
  PostingRequest, handle_mileage_error, posting_answer, input_of, handle_bound, handle_posting,
}

-- An error that wraps a driver's error is answered by 500.
commit_error_status :
    (p : Platform) (s : Server p) (c : Request) (e : Error) (operation : String)
    → IsCommitError p s e
    → (handle_mileage_error c e operation).status ≡ 500
unfolding handle_mileage_error errors_is
commit_error_status p s c e operation (d, is) = rw is refl

-- An error that is ErrAlreadyProcessed, the key being taken by another request meanwhile, is
-- answered by status 500.
pub already_processed_status :
    (c : Request) (e : Error) (operation : String)
    → errors_is e already_processed ≡ true
    → (handle_mileage_error c e operation).status ≡ 500
unfolding handle_mileage_error same_sentinel
already_processed_status c e operation h =
    rw
      (
        errors_is_only e already_processed insufficient_balance h,
        errors_is_only e already_processed optimistic_lock h,
        errors_is_only e already_processed idempotency_conflict h,
        errors_is_only e already_processed invalid_amount h,
      )
      refl

module _ (p : Platform) (s : Server p) (flow : Flow) (operation : String) where
  open p use {World}
  open s use {committed, Others}

  -- By the status: 200 answers a posting or the repetition of one, 400 and 409 mean that only
  -- others have changed the tables, and 500 that the call has posted nothing unless its commit failed.
  abbrev pub StatusTells : PostingInput → World → Response → World → Type 0
  StatusTells input w r w' =
      ((r.status ≡ 200) × ((out : PostingOutput) × Answered p s flow input w out w'))
      ⊎ (((r.status ≡ 400) ⊎ (r.status ≡ 409)) × Others (committed w) (committed w'))
      ⊎ ((r.status ≡ 500) × ((e : Error) × Unposted p s flow input w e w'))

  status_cases :
      (c : Request) (e : Error)
      → ((handle_mileage_error c e operation).status ≡ 400)
        ⊎ ((handle_mileage_error c e operation).status ≡ 409)
        ⊎ ((handle_mileage_error c e operation).status ≡ 500)
  unfolding handle_mileage_error
  status_cases c e = ground arith

  failure_lem :
      (c : Request) (input : PostingInput) (w : World) (e : Error) (w' : World)
      → Unposted p s flow input w e w'
      → StatusTells input w (handle_mileage_error c e operation) w'
  failure_lem c input w e w' (inr (out, failure, effect)) =
      inr (inr (commit_error_status p s c e operation failure, (e, inr (out, failure, effect))))
  failure_lem c input w e w' (inl others) = by_status (status_cases c e)
    where
      by_status :
          ((handle_mileage_error c e operation).status ≡ 400)
            ⊎ ((handle_mileage_error c e operation).status ≡ 409)
            ⊎ ((handle_mileage_error c e operation).status ≡ 500)
          → StatusTells input w (handle_mileage_error c e operation) w'
      by_status (inl bad) = inr (inl (inl bad, others))
      by_status (inr (inl conflicting)) = inr (inl (inr conflicting, others))
      by_status (inr (inr internal)) = inr (inr (internal, (e, inl others)))

  answer_lem :
      (c : Request) (input : PostingInput) (w : World) {o : Outcome World PostingOutput}
      → Ensures (Answered p s flow input w) (Unposted p s flow input w) o
      → Ensures (StatusTells input w) (λ e w'. ⊥) (posting_answer c operation o)
  answer_lem c input w (returned {a = out} h) = returned (inl (refl, (out, h)))
  answer_lem c input w (failed {e = e} {w = w'} h) = returned (failure_lem c input w e w' h)

  module _ (c : Request) (req : PostingRequest) where
    abbrev pub the_input : PostingInput
    the_input = input_of c (c.header "Idempotency-Key") req

    -- For a request with a bound body: if a transaction on record under its key has its account
    -- when the call begins, and other clients keep that so and never remove the account, then the
    -- handler answers with a response, never with an error or a panic. By its status: with 200,
    -- the call has posted once or has repeated the answer to an earlier posting; with 400 or 409,
    -- nobody but other clients has changed the tables; otherwise the status is 500, and the call
    -- has posted nothing, unless its error was that of the commit.
    pub handle_posting_lem :
        ((a b : Tables) → Others a b → Owned p s flow the_input a → Owned p s flow the_input b)
        → ((a b : Tables)
            → Others a b
            → a.accounts the_input.user_id ≢ none
            → b.accounts the_input.user_id ≢ none)
        → (w : World) → Owned p s flow the_input (committed w)
        → Ensures
            (StatusTells the_input w)
            (λ e w'. ⊥)
            (handle_posting p flow operation c (some req) w)
    unfolding handle_posting handle_bound
    handle_posting_lem owned_kept account_kept w own =
        elim (Bool-cases (str_eq (c.header "Idempotency-Key") "")) [
          | inl missing ↦ rw missing (returned (inr (inl (inl refl, s.others_refl _))))
          | inr given ↦ elim (Bool-cases (leb_ℤ req.amount (pos 0))) [
            | inl bad ↦ rw (given, bad) (returned (inr (inl (inl refl, s.others_refl _))))
            | inr good ↦
                rw (given, good)
                  (answer_lem c the_input w
                    (execute_lem p s flow the_input owned_kept account_kept w own))
          ]
        ]
