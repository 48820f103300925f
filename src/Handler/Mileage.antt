-- ===== src/Handler/Mileage.antt =====
-- internal/server/handler/mileage.go. Grant and Redeem are the same code but for the usecase and
-- the operation's name.
pub mod Status
pub mod Success
pub mod Conflict
use text.Mathlib.Text.{◌==◌ as str_eq}
use mileage_core.Base.{String, ◌<>◌, Option, none, some, List, [], ◌∷◌, if◌then◌else◌}
use mileage_core.Base.Int.{ℤ, pos, leb_ℤ}
use mileage_core.Errors.{
  Error, errors_is, insufficient_balance, optimistic_lock, idempotency_conflict, invalid_amount,
}
use mileage_core.Effect.{Outcome, returns, fails, panics, Action}
use mileage_core.Platform.{Platform}
use mileage_core.Mysql.Tx.{background}
use mileage_core.Usecase.Posting.{
  PostingInput, PostingOutput, Flow, grant_flow, redeem_flow, execute,
}
use mileage_core.GoText.{atoi}
use mileage_core.Usecase.Balance.{BalanceOutput, read_balance}
use mileage_core.Usecase.Transactions.{TransactionsOutput, list_page}
use mileage_core.Handler.{
  Request, Response, posting_response, balance_response, page_response, get_user_id, get_request_id,
  new_error_response, bad_request, conflict, internal_error, counting,
}

-- grantRequest, redeemRequest: the body of a request.
pub record PostingRequest : Type 0 where
  pub amount : ℤ
  pub reason : String

-- handleMileageError
unfoldable pub handle_mileage_error : Request → Error → String → Response
handle_mileage_error c err operation =
    if errors_is err insufficient_balance
    then counting operation "insufficient_balance"
        (conflict c "INSUFFICIENT_BALANCE" "balance is not enough")
    else if errors_is err optimistic_lock
    then counting operation "optimistic_lock"
        (conflict c "OPTIMISTIC_LOCK_CONFLICT" "concurrent update detected, please retry")
    else if errors_is err idempotency_conflict
    then counting operation "idempotency_conflict"
        (conflict c "IDEMPOTENCY_CONFLICT" "same idempotency key with different content")
    else if errors_is err invalid_amount
    then bad_request c "amount must be positive"
    else counting operation "error" (internal_error c (operation <> " failed"))

-- The response to what Execute returned. A panic leaves the handler.
abbrev pub posting_answer :
    {W : Type 0} → Request → String → Outcome W PostingOutput → Outcome W Response
posting_answer c operation (returns out w) =
    returns
      (counting operation "success" (record {
        status = 200;
        body = posting_response (record {
          transaction_id = out.transaction_id;
          balance = out.balance;
          version = out.version;
        });
        counted = [];
        headers = [];
      }))
      w
posting_answer c operation (fails e w) = returns (handle_mileage_error c e operation) w
posting_answer c operation (panics w) = panics w

-- The usecase's input.
abbrev pub input_of : Request → String → PostingRequest → PostingInput
input_of c key req = record {
  user_id = get_user_id c;
  amount = req.amount;
  reason = req.reason;
  idempotency_key = key;
  request_id = get_request_id c;
}

module _ (p : Platform) (flow : Flow) (operation : String) where
  open p use {World}

  -- The handler after the header: the result of c.Bind, with `none` for its error.
  unfoldable pub handle_bound : Request → String → Option PostingRequest → Action World Response
  handle_bound c key none w = returns (bad_request c "invalid request body") w
  handle_bound c key (some req) w =
      if leb_ℤ req.amount (pos 0)
      then returns (bad_request c "amount must be positive") w
      else posting_answer c operation (execute p flow background (input_of c key req) w)

  -- Grant and Redeem
  unfoldable pub handle_posting : Request → Option PostingRequest → Action World Response
  handle_posting c bound w =
      let key = c.header "Idempotency-Key" in
      if str_eq key ""
      then returns (bad_request c "Idempotency-Key header is required") w
      else handle_bound c key bound w

module _ (p : Platform) where
  open p use {World}

  -- Grant
  unfoldable pub handle_grant : Request → Option PostingRequest → Action World Response
  handle_grant c bound w = handle_posting p grant_flow "grant" c bound w

  -- Redeem
  unfoldable pub handle_redeem : Request → Option PostingRequest → Action World Response
  handle_redeem c bound w = handle_posting p redeem_flow "redeem" c bound w

  abbrev pub balance_answer : Request → Outcome World BalanceOutput → Outcome World Response
  balance_answer c (returns out w) =
      returns
        (record {
          status = 200;
          body =
              balance_response
                (record { user_id = out.user_id; balance = out.balance; version = out.version });
          counted = [];
          headers = [];
        })
        w
  balance_answer c (fails e w) = returns (internal_error c "failed to get balance") w
  balance_answer c (panics w) = panics w

  -- GetBalance
  unfoldable pub handle_balance : Request → Action World Response
  handle_balance c w = balance_answer c (read_balance p background (get_user_id c) w)

  abbrev pub page_answer : Request → Outcome World TransactionsOutput → Outcome World Response
  page_answer c (returns out w) =
      returns (record { status = 200; body = page_response out; counted = []; headers = [] }) w
  page_answer c (fails e w) = returns (internal_error c "failed to get transactions") w
  page_answer c (panics w) = panics w

  -- `limit, _ := strconv.Atoi(…)`, of which the error is dropped.
  abbrev pub query_limit : String → ℤ
  query_limit text = let (n, _) = atoi text in if leb_ℤ n (pos 0) then pos 50 else n

  -- GetTransactions
  unfoldable pub handle_transactions : Request → Action World Response
  handle_transactions c w = page_answer c (
      list_page p background
        (record {
          user_id = get_user_id c;
          cursor = c.query_param "cursor";
          limit = query_limit (c.query_param "limit");
        })
        w)
