-- ===== src/Handler/Auth.antt =====
-- internal/server/handler/auth.go
pub mod Status
use Prim.Native.String.{len}
use text.Mathlib.Text.{◌==◌ as str_eq}
use mileage_core.Base.{ℕ, Bool, String, ◌<>◌, ◌||◌, Option, none, some, [], ltb, if◌then◌else◌}
use mileage_core.Errors.{
  Sentinel, insufficient_balance, invalid_amount, optimistic_lock, idempotency_conflict,
  already_processed, DriverError, Error, sentinel, message, driver, wrapped, rollback_failed,
}
use mileage_core.Effect.{Outcome, returns, fails, panics, Action}
use mileage_core.Platform.{Platform}
use mileage_core.Mysql.Tx.{background}
use mileage_core.Mysql.UserRepository.{Identity}
use mileage_core.Usecase.Auth.{JwtConfig, Credentials, AuthOutput, signup, login}
use mileage_core.Handler.{
  Request, Response, auth_response, new_error_response, bad_request, conflict, internal_error,
}

-- The texts of the sentinels.
abbrev pub sentinel_text : Sentinel → String
sentinel_text insufficient_balance = "balance is not enough"
sentinel_text invalid_amount = "amount must be positive"
sentinel_text optimistic_lock = "optimistic lock conflict"
sentinel_text idempotency_conflict = "idempotency key conflict with different content"
sentinel_text already_processed = "already processed with same idempotency key"

-- err.Error(), given the texts of the drivers' errors.
unfoldable pub error_text : (DriverError → String) → Error → String
error_text f (sentinel s) = sentinel_text s
error_text f (message m) = m
error_text f (driver d) = f d
error_text f (wrapped prefix e) = prefix <> (": " <> error_text f e)
error_text f (rollback_failed d e) =
    "rollback failed: " <> (f d <> (" (original: " <> (error_text f e <> ")")))

-- signupRequest and loginRequest are Credentials.
abbrev pub is_missing : Credentials → Bool
is_missing req = str_eq req.email "" || str_eq req.password ""

module _ (p : Platform) (i : Identity p) (config : JwtConfig) where
  open p use {World}
  open i use {driver_text}

  abbrev pub signup_error : Request → Error → Response
  signup_error c e =
      if str_eq (error_text driver_text e) "email already registered"
      then conflict c "EMAIL_CONFLICT" (error_text driver_text e)
      else internal_error c "signup failed"

  abbrev pub login_error : Request → Error → Response
  login_error c e =
      if str_eq (error_text driver_text e) "invalid credentials"
      then new_error_response c 401 "INVALID_CREDENTIALS" (error_text driver_text e)
      else internal_error c "login failed"

  -- The response to what the usecase returned, with the status of a success.
  abbrev pub auth_answer :
      ℕ → (Error → Response) → Outcome World AuthOutput → Outcome World Response
  auth_answer status on_failure (returns out w) =
      returns
        (record {
          status = status;
          body = auth_response (record { user_id = out.user_id; token = out.token });
          counted = [];
          headers = [];
        })
        w
  auth_answer status on_failure (fails e w) = returns (on_failure e) w
  auth_answer status on_failure (panics w) = panics w

  -- Signup, with the result of c.Bind. The length is in bytes.
  unfoldable pub handle_signup : Request → Option Credentials → Action World Response
  handle_signup c none w = returns (bad_request c "invalid request body") w
  handle_signup c (some req) w =
      if is_missing req
      then returns (bad_request c "email and password are required") w
      else if ltb (len req.password) 8
      then returns (bad_request c "password must be at least 8 characters") w
      else auth_answer 201 (signup_error c) (signup p i config background req w)

  -- Login
  unfoldable pub handle_login : Request → Option Credentials → Action World Response
  handle_login c none w = returns (bad_request c "invalid request body") w
  handle_login c (some req) w =
      if is_missing req
      then returns (bad_request c "email and password are required") w
      else auth_answer 200 (login_error c) (login p i config background req w)
