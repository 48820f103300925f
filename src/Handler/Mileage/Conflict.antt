-- ===== src/Handler/Mileage/Conflict.antt =====
-- The answer to a posting that has lost every race for the version.
use mileage_core.Base.{String, false, true, ◌≡◌, ◌≢◌, refl, none, some, arith}
use mileage_core.Base.Text.{text_differs}
use mileage_core.Base.Int.{pos, ◌<ℤ◌, leb_ℤ}
use mileage_core.Errors.{
  Error, wrapped, errors_is, errors_is_only, same_sentinel, insufficient_balance, optimistic_lock,
}
use mileage_core.Effect.{returns, fails}
use mileage_core.Platform.{Platform}
use mileage_core.Mysql.Tx.{background}
use mileage_core.Mysql.MileageRepository.{find_transaction_by_idempotency_key}
use mileage_core.Usecase.Posting.{Flow, PostingInput, max_retries, proceed, execute}
use mileage_core.Usecase.Posting.Conflict.{Lost, Lost-fails, Lost-lock}
use mileage_core.Handler.{Request, Response, counting, conflict}
use mileage_core.Handler.Mileage.{
  PostingRequest, handle_mileage_error, input_of, handle_bound, handle_posting,
}

module _ (c : Request) (operation : String) where
  -- The response, with the counter of the operation's result.
  abbrev pub conflict_response : Response
  conflict_response =
      counting operation "optimistic_lock"
        (conflict c "OPTIMISTIC_LOCK_CONFLICT" "concurrent update detected, please retry")

  lock_response :
      (e : Error)
      → errors_is e optimistic_lock ≡ true
      → handle_mileage_error c e operation ≡ conflict_response
  unfolding handle_mileage_error same_sentinel
  lock_response e lock = rw (errors_is_only e optimistic_lock insufficient_balance lock, lock) refl

  module _ (p : Platform) (flow : Flow) (req : PostingRequest) where
    open p use {World}

    abbrev key : String
    key = c.header "Idempotency-Key"

    abbrev input : PostingInput
    input = input_of c key req

    execute-Lost :
        (w v : World) (x : Error) (w' : World)
        → pos 0 <ℤ req.amount
        → key ≢ ""
        → find_transaction_by_idempotency_key p background input.user_id key flow.kind w
          ≡ returns none v
        → Lost p flow background input max_retries none v x w'
        → execute p flow background input w ≡ fails (wrapped flow.failure x) w'
    unfolding execute proceed
    execute-Lost w v x w' positive keyed free lost =
        let good : leb_ℤ req.amount (pos 0) ≡ false = ground arith in
        rw
          (
            good,
            text_differs key "" keyed,
            free,
            Lost-fails p flow background input max_retries none v x w' lost,
          )
          refl

    -- A request for a positive amount under a key that the lookup finds free, of which three attempts
    -- in a row are transactions that fail with ErrOptimisticLock, is answered by status 409 with the
    -- code OPTIMISTIC_LOCK_CONFLICT and counted so, at once after the third.
    pub handle_posting-conflict :
        (w v : World) (x : Error) (w' : World)
        → pos 0 <ℤ req.amount
        → key ≢ ""
        → find_transaction_by_idempotency_key p background input.user_id key flow.kind w
          ≡ returns none v
        → Lost p flow background input max_retries none v x w'
        → handle_posting p flow operation c (some req) w ≡ returns conflict_response w'
    unfolding handle_posting handle_bound errors_is
    handle_posting-conflict w v x w' positive keyed free lost =
        let good : leb_ℤ req.amount (pos 0) ≡ false = ground arith in
        let lock : errors_is x optimistic_lock ≡ true =
          Lost-lock p flow background input max_retries none v x w' (λ y is. absurd (cc)) lost in
        rw
          (
            text_differs key "" keyed,
            good,
            execute-Lost w v x w' positive keyed free lost,
            lock_response (wrapped flow.failure x) lock,
          )
          refl
