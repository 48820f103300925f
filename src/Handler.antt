-- ===== src/Handler.antt =====
-- The HTTP layer: internal/server/handler. A handler's result is the response that it writes with
-- c.JSON, and the business operations that it counts with middleware.RecordBusinessOp.
pub mod Mileage
pub mod Auth
pub mod Achievement
use mileage_core.Base.{ℕ, String, Option, none, some, List, [], ◌∷◌}
use mileage_core.Base.Int.{ℤ}
use mileage_core.Usecase.Transactions.{TransactionsOutput}

-- ErrorBody
pub record ErrorBody : Type 0 where
  pub code : String
  pub message : String
  pub request_id : String

-- grantResponse, redeemResponse
pub record PostingResponse : Type 0 where
  pub transaction_id : String
  pub balance : ℤ
  pub version : ℤ

-- balanceResponse
pub record BalanceResponse : Type 0 where
  pub user_id : String
  pub balance : ℤ
  pub version : ℤ

-- authResponse
pub record AuthResponse : Type 0 where
  pub user_id : String
  pub token : String

-- What is encoded as JSON.
pub data Body : Type 0 where
  error_response : ErrorBody → Body
  posting_response : PostingResponse → Body
  balance_response : BalanceResponse → Body
  page_response : TransactionsOutput → Body
  auth_response : AuthResponse → Body
  -- The map `{"error": {"code", "message"}}` that the middleware writes.
  plain_error : String → String → Body
  -- `{"status": …}`
  status_text : String → Body

pub record Response : Type 0 where
  pub status : ℕ
  pub body : Body
  pub counted : List (String × String)
  -- The headers that middleware has set.
  pub headers : List (String × String)

-- What is read of echo.Context: the values that middleware has set, the headers, the query, the
-- method and the path.
pub record Request : Type 0 where
  pub user_id : Option String
  pub request_id : Option String
  pub header : String → String
  pub query_param : String → String
  pub method : String
  pub path : String
  -- c.Path(), the path of the route, or "" if there is none
  pub route : String
  pub content : String

-- `v := c.Get(key)`, and "" for nil: GetUserID and GetRequestID of internal/server/middleware.
abbrev pub text_or_empty : Option String → String
text_or_empty none = ""
text_or_empty (some v) = v

abbrev pub get_user_id : Request → String
get_user_id c = text_or_empty c.user_id

abbrev pub get_request_id : Request → String
get_request_id c = text_or_empty c.request_id

-- NewErrorResponse
abbrev pub new_error_response : Request → ℕ → String → String → Response
new_error_response c status code message = record {
  status = status;
  body = error_response (record { code = code; message = message; request_id = get_request_id c });
  counted = [];
  headers = [];
}

-- BadRequest, Conflict, InternalError
abbrev pub bad_request : Request → String → Response
bad_request c message = new_error_response c 400 "BAD_REQUEST" message

abbrev pub conflict : Request → String → String → Response
conflict c code message = new_error_response c 409 code message

abbrev pub internal_error : Request → String → Response
internal_error c message = new_error_response c 500 "INTERNAL_ERROR" message

-- middleware.RecordBusinessOp before a response.
abbrev pub counting : String → String → Response → Response
counting operation result r = record r { counted = (operation, result) ∷ r.counted }
