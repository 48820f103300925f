-- ===== src/Usecase/Posting.antt =====
-- internal/usecase/grant.go and redeem.go. The two files are the same code but for the method of
-- the account, the transaction's type and the text of the last error, which are a `Flow` here;
-- GrantInput and RedeemInput, GrantOutput and RedeemOutput have the same fields. Log lines are left
-- out.
pub mod Transaction
pub mod Attempts
pub mod Execute
pub mod Ledger
pub mod Invariant
pub mod Clients
pub mod Success
pub mod Conflict
use text.Mathlib.Text.{◌==◌ as str_eq}
use mileage_core.Base.{ℕ, zero, suc, String, Option, none, some, if◌then◌else◌}
use mileage_core.Base.Int.{ℤ, pos, leb_ℤ, eqb_ℤ}
use mileage_core.Errors.{
  Error, sentinel, message, wrapped, errors_is, optimistic_lock, idempotency_conflict,
  already_processed,
}
use mileage_core.Effect.{
  returns, fails, panics, Action, pure, fail, panic, call, with_error, return_error, on_error,
  logged, follow, ◌>>=◌, ◌>>◌,
}
use mileage_core.Domain.{
  TransactionType, transaction_type_grant, transaction_type_redeem, MileageTransaction,
}
use mileage_core.Domain.Account.{MileageAccount, grant, redeem}
use mileage_core.Platform.{Platform}
use mileage_core.Mysql.Tx.{Context, run_in_tx}
use mileage_core.Mysql.MileageRepository.{
  get_account, update_balance, insert_transaction, find_transaction_by_idempotency_key,
}
use mileage_core.Cache.{invalidate_balance}

-- GrantInput, RedeemInput
pub record PostingInput : Type 0 where
  pub user_id : String
  pub amount : ℤ
  pub reason : String
  pub idempotency_key : String
  pub request_id : String

-- GrantOutput, RedeemOutput
pub record PostingOutput : Type 0 where
  pub transaction_id : String
  pub balance : ℤ
  pub version : ℤ

-- Where the two usecases differ.
pub record Flow : Type 0 where
  pub kind : TransactionType
  pub change : MileageAccount → ℤ → Option Error × MileageAccount
  pub failure : String

abbrev pub grant_flow : Flow
grant_flow = record {
  kind = transaction_type_grant;
  change = grant;
  failure = "grant failed after 3 retries";
}

abbrev pub redeem_flow : Flow
redeem_flow = record {
  kind = transaction_type_redeem;
  change = redeem;
  failure = "redeem failed after 3 retries";
}

-- const maxRetries
abbrev pub max_retries : ℕ
max_retries = 3

-- An error of InsertTransaction, as the closure returns it.
abbrev pub insertion_error : Error → Error
insertion_error e = if errors_is e already_processed then e else wrapped "insert transaction" e

-- A nil account is an error inside the transaction.
abbrev pub required : {W : Type 0} → Option MileageAccount → Action W MileageAccount
required none = fail (message "account not found")
required (some a) = pure a

-- The transaction that executeInTx builds; created_at stays the zero time.
abbrev pub transaction_of : TransactionType → PostingInput → String → MileageTransaction
transaction_of kind input id = record {
  id = id;
  user_id = input.user_id;
  amount = input.amount;
  kind = kind;
  idempotency_key = input.idempotency_key;
  reason = input.reason;
  request_id = input.request_id;
  created_at = 0;
}

module _ (p : Platform) where
  open p use {World, Tx, new_ulid}

  module _ (flow : Flow) where
    -- The closure of executeInTx from the transaction's identifier on.
    unfoldable pub record_posting :
        Context Tx → PostingInput → ℤ → MileageAccount → String → Action World PostingOutput
    record_posting ctx input expected_version account tx_id = do
      with_error insertion_error (insert_transaction p ctx (transaction_of flow.kind input tx_id))
      update_balance p ctx input.user_id account.balance expected_version
      pure (record { transaction_id = tx_id; balance = account.balance; version = account.version })

    -- The closure from the account on: the domain's method, with its error, and the records.
    unfoldable pub post_account :
        Context Tx → PostingInput → MileageAccount → Action World PostingOutput
    post_account ctx input account = do
      let (err, changed) = flow.change account input.amount
      return_error err
      tx_id ← call new_ulid
      record_posting ctx input account.version changed tx_id

    -- The closure that executeInTx runs.
    unfoldable pub post : PostingInput → Context Tx → Action World PostingOutput
    post input ctx = do
      found ← with_error (wrapped "get account") (get_account p ctx input.user_id)
      account ← required found
      post_account ctx input account

    -- executeInTx
    unfoldable pub execute_in_tx : Context Tx → PostingInput → Action World PostingOutput
    execute_in_tx ctx input = run_in_tx p ctx (post input)

    -- The loop over the attempts, with the number of attempts left and the error of the last one.
    -- With no attempt made, the nil output would be read.
    unfoldable pub attempts :
        ℕ → Option Error → Context Tx → PostingInput → Action World PostingOutput
    attempts zero none ctx input w = panics w
    attempts zero (some e) ctx input w = fails (wrapped flow.failure e) w
    attempts (suc n) last ctx input w = on_error (execute_in_tx ctx input w) λ e v.
        let retry = attempts n (some e) ctx input v in
        if errors_is e optimistic_lock then retry else fails e v

    -- The answer to a request whose key is already taken. A nil account is dereferenced.
    abbrev pub account_output : String → Option MileageAccount → Action World PostingOutput
    account_output id none = panic
    account_output id (some a) =
        pure (record { transaction_id = id; balance = a.balance; version = a.version })

    unfoldable pub replay :
        Context Tx → PostingInput → MileageTransaction → Action World PostingOutput
    replay ctx input existing =
        if eqb_ℤ existing.amount input.amount
        then (do
          account ←
              with_error (wrapped "get account for idempotent response")
                (get_account p ctx input.user_id)
          account_output existing.id account)
        else fail (sentinel idempotency_conflict)

    -- What follows the loop: the cache entry is dropped, and a failure of that is only logged.
    abbrev pub invalidated : PostingInput → PostingOutput → Action World PostingOutput
    invalidated input out w = follow (logged (invalidate_balance p input.user_id w)) (λ u. pure out)

    unfoldable pub proceed :
        Context Tx → PostingInput → Option MileageTransaction → Action World PostingOutput
    proceed ctx input (some existing) = replay ctx input existing
    proceed ctx input none = do out ← attempts max_retries none ctx input; invalidated input out

    -- Execute
    unfoldable pub execute : Context Tx → PostingInput → Action World PostingOutput
    execute ctx input =
        if leb_ℤ input.amount (pos 0)
        then fail (message "amount must be positive")
        else if str_eq input.idempotency_key ""
        then fail (message "idempotency key is required")
        else (do
          existing ← with_error (wrapped "check idempotency") (
              find_transaction_by_idempotency_key p ctx input.user_id input.idempotency_key
                flow.kind)
          proceed ctx input existing)

  -- executeInTx and Execute of RedeemUsecase: the same code, with what differs in `redeem_flow`.
  abbrev redeem_in_tx : Context Tx → PostingInput → Action World PostingOutput
  redeem_in_tx = execute_in_tx redeem_flow

  abbrev redeem_points : Context Tx → PostingInput → Action World PostingOutput
  redeem_points = execute redeem_flow
