-- ===== src/Router/Correlation.antt =====
-- The identifier of a request, in the header and in the error bodies.
use text.Mathlib.Text.{◌==◌ as str_eq}
use mileage_core.Base.{
  String, Bool, true, false, ℕ, ◌≡◌, ◌≢◌, ◌⊎◌, refl, inl, inr, Option, none, some, List, ◌∷◌,
  Bool-cases, ltb, arith, if◌then◌else◌,
}
use text.Mathlib.TextEquality.{eq_iff}
use mileage_core.Base.Int.{pos, leb_ℤ}
use mileage_core.Errors.{Error}
use mileage_core.Effect.{Outcome, returns, fails, panics}
use mileage_core.Platform.{Platform}
use mileage_core.Mysql.UserRepository.{Identity}
use mileage_core.Mysql.Tx.{background}
use mileage_core.Usecase.Posting.{PostingOutput, Flow, execute, grant_flow, redeem_flow}
use mileage_core.Usecase.Auth.{JwtConfig, Credentials, AuthOutput, signup, login}
use Prim.Native.String.{len}
use mileage_core.Usecase.Achievement.{record_event}
use mileage_core.Usecase.Balance.{BalanceOutput}
use mileage_core.Usecase.Transactions.{TransactionsOutput}
use mileage_core.Handler.{Request, Response, ErrorBody, error_response, get_request_id, bad_request}
use mileage_core.Handler.Auth.{
  is_missing, signup_error, login_error, auth_answer, handle_signup, handle_login,
}
use mileage_core.Handler.Mileage.{
  PostingRequest, handle_mileage_error, posting_answer, handle_bound, handle_posting,
  handle_balance, handle_transactions, handle_grant, handle_redeem, balance_answer, page_answer,
  input_of,
}
use mileage_core.Handler.Achievement.{AchievementRequest, handle_event, event_answer, event_input}
use mileage_core.Middleware.{Web}
use mileage_core.Middleware.RequestId.{request_id_header, with_header, tagged, with_request_id}
use mileage_core.Config.{Config}
use mileage_core.Router.{Endpoint, Echo, handler_of}

-- A response whose error body, if it has one, shows this request's identifier.
pub data Shows {W : Type 0} (id : String) : Outcome W Response → Type 0 where
  answered :
      {r : Response} {w : W}
      → ((b : ErrorBody) → r.body ≡ error_response b → b.request_id ≡ id)
      → Shows id (returns r w)
  errored : {e : Error} {w : W} → Shows id (fails e w)
  panicked : {w : W} → Shows id (panics w)

-- A response with this header.
abbrev pub Carries : {W : Type 0} → String → Outcome W Response → Type 0
Carries id (returns r w) =
    (rest : List (String × String)) × (r.headers ≡ (request_id_header, id) ∷ rest)
Carries id (fails e w) = Unit
Carries id (panics w) = Unit

module _ (c : Request) where
  mileage_error_lem :
      (e : Error) (operation : String) (b : ErrorBody)
      → (handle_mileage_error c e operation).body ≡ error_response b
      → b.request_id ≡ get_request_id c
  unfolding handle_mileage_error
  mileage_error_lem e operation b is = ground arith

  posting_answer-Shows :
      {W : Type 0} (operation : String) (o : Outcome W PostingOutput)
      → Shows (get_request_id c) (posting_answer c operation o)
  posting_answer-Shows operation (returns out w) = answered (λ b is. cc)
  posting_answer-Shows operation (fails e w) = answered (mileage_error_lem e operation)
  posting_answer-Shows operation (panics w) = panicked

  balance_answer-Shows :
      (p : Platform) (o : Outcome p.World BalanceOutput)
      → Shows (get_request_id c) (balance_answer p c o)
  balance_answer-Shows p (returns out w) = answered (λ b is. cc)
  balance_answer-Shows p (fails e w) = answered (λ b is. cc)
  balance_answer-Shows p (panics w) = panicked

  page_answer-Shows :
      (p : Platform) (o : Outcome p.World TransactionsOutput)
      → Shows (get_request_id c) (page_answer p c o)
  page_answer-Shows p (returns out w) = answered (λ b is. cc)
  page_answer-Shows p (fails e w) = answered (λ b is. cc)
  page_answer-Shows p (panics w) = panicked

  event_answer-Shows :
      {W : Type 0} (o : Outcome W (Unit {0})) → Shows (get_request_id c) (event_answer c o)
  event_answer-Shows (returns out w) = answered (λ b is. cc)
  event_answer-Shows (fails e w) = answered (λ b is. cc)
  event_answer-Shows (panics w) = panicked

  module _ (p : Platform) (i : Identity p) (config : JwtConfig) where
    abbrev ErrorShows : (Error → Response) → Type 0
    ErrorShows f =
        (e : Error) (b : ErrorBody)
        → (f e).body ≡ error_response b
        → b.request_id ≡ get_request_id c

    signup_error-ErrorShows : ErrorShows (signup_error p i config c)
    signup_error-ErrorShows e b is = ground arith

    login_error-ErrorShows : ErrorShows (login_error p i config c)
    login_error-ErrorShows e b is = ground arith

    auth_answer-Shows :
        (status : ℕ) (f : Error → Response) (o : Outcome p.World AuthOutput)
        → ErrorShows f
        → Shows (get_request_id c) (auth_answer p i config status f o)
    auth_answer-Shows status f (returns out w) h = answered (λ b is. cc)
    auth_answer-Shows status f (fails e w) h = answered (h e)
    auth_answer-Shows status f (panics w) h = panicked

  -- A check of the input before the rest.
  guarded-Shows :
      {W : Type 0} (test : Bool) (message : String) (w : W) (o : Outcome W Response)
      → Shows (get_request_id c) o
      → Shows (get_request_id c) (if test then returns (bad_request c message) w else o)
  guarded-Shows true message w o h = answered (λ b is. cc)
  guarded-Shows false message w o h = h

  module _ (p : Platform) (w : p.World) where
    posting-Shows :
        (flow : Flow) (operation : String) (bound : Option PostingRequest)
        → Shows (get_request_id c) (handle_posting p flow operation c bound w)
    unfolding handle_posting handle_bound
    posting-Shows flow operation none =
        guarded-Shows (str_eq (c.header "Idempotency-Key") "") "Idempotency-Key header is required"
          w _ (answered (λ b is. cc))
    posting-Shows flow operation (some req) =
        guarded-Shows (str_eq (c.header "Idempotency-Key") "") "Idempotency-Key header is required"
          w _
          (guarded-Shows (leb_ℤ req.amount (pos 0)) "amount must be positive" w _ (
            posting_answer-Shows operation
              (execute p flow background (input_of c (c.header "Idempotency-Key") req) w)))

    event-Shows :
        (bound : Option AchievementRequest) → Shows (get_request_id c) (handle_event p c bound w)
    unfolding handle_event
    event-Shows none = answered (λ b is. cc)
    event-Shows (some req) =
        guarded-Shows (str_eq req.action_type "") "action_type is required" w _
          (event_answer-Shows (record_event p background (event_input c req) w))

    module _ (i : Identity p) (config : JwtConfig) where
      signup-Shows :
          (bound : Option Credentials)
          → Shows (get_request_id c) (handle_signup p i config c bound w)
      unfolding handle_signup
      signup-Shows none = answered (λ b is. cc)
      signup-Shows (some req) =
          guarded-Shows (is_missing req) "email and password are required" w _ (
            guarded-Shows (ltb (len req.password) 8) "password must be at least 8 characters" w _ (
              auth_answer-Shows p i config 201 (signup_error p i config c)
                (signup p i config background req w) (signup_error-ErrorShows p i config)))

      login-Shows :
          (bound : Option Credentials)
          → Shows (get_request_id c) (handle_login p i config c bound w)
      unfolding handle_login
      login-Shows none = answered (λ b is. cc)
      login-Shows (some req) =
          guarded-Shows (is_missing req) "email and password are required" w _ (
            auth_answer-Shows p i config 200 (login_error p i config c)
              (login p i config background req w) (login_error-ErrorShows p i config))

-- The endpoints that this repository implements.
abbrev pub IsApi : Endpoint → Type 0
IsApi Endpoint.metrics = ⊥
IsApi (Endpoint.profile name) = ⊥
IsApi _ = Unit

module _ (p : Platform) (i : Identity p) (web : Web p) (echo : Echo p) (config : Config) where
  open p use {World}

  handler_of-Shows :
      (e : Endpoint) (c : Request) (w : World)
      → IsApi e
      → Shows (get_request_id c) (handler_of p i web echo config e c w)
  unfolding handle_balance handle_transactions handle_grant handle_redeem
  handler_of-Shows Endpoint.health c w h = answered (λ b is. cc)
  handler_of-Shows Endpoint.signup c w h = signup-Shows c p w i config.jwt _
  handler_of-Shows Endpoint.login c w h = login-Shows c p w i config.jwt _
  handler_of-Shows Endpoint.balance c w h = balance_answer-Shows c p _
  handler_of-Shows Endpoint.transactions c w h = page_answer-Shows c p _
  handler_of-Shows Endpoint.grant c w h = posting-Shows c p w grant_flow "grant" _
  handler_of-Shows Endpoint.redeem c w h = posting-Shows c p w redeem_flow "redeem" _
  handler_of-Shows Endpoint.achievements c w h = event-Shows c p w _
  handler_of-Shows Endpoint.metrics c w h = absurd h
  handler_of-Shows (Endpoint.profile name) c w h = absurd h

  -- The identifier of a request: its header's, or a fresh ULID.
  abbrev pub IsIdentifier : Request → World → String → Type 0
  IsIdentifier c w id =
      ((c.header request_id_header ≢ "") × (id ≡ c.header request_id_header))
      ⊎ ((c.header request_id_header ≡ "") × (id ≡ (p.new_ulid w).0))

  tagged_lem :
      (e : Endpoint) (c : Request) (id : String) (w : World)
      → IsApi e
      → Carries id (tagged p (handler_of p i web echo config e) id c w)
        × Shows id (tagged p (handler_of p i web echo config e) id c w)
  tagged_lem e c id w h = through _ (handler_of-Shows e (record c { request_id = some id }) w h)
    where
      through :
          (o : Outcome World Response)
          → Shows id o
          → Carries id (with_header request_id_header id o)
            × Shows id (with_header request_id_header id o)
      through (returns r w) (answered shows) = ((r.headers, refl), answered shows)
      through (fails err w) shows = (tt, errored)
      through (panics w) shows = (tt, panicked)

  -- A response that an endpoint of this repository gives behind RequestID has the identifier of the
  -- request as its X-Request-Id header, which is the request's own header, or else a fresh ULID; and
  -- its error body, if it has one, shows the same identifier.
  pub with_request_id-Shows :
      (e : Endpoint) (c : Request) (w : World)
      → IsApi e
      → (id : String) × IsIdentifier c w id
        × Carries id (with_request_id p (handler_of p i web echo config e) c w)
        × Shows id (with_request_id p (handler_of p i web echo config e) c w)
  unfolding with_request_id
  with_request_id-Shows e c w h = elim (Bool-cases (str_eq (c.header request_id_header) "")) [
    | inl missing ↦
        let (carries, shows) = tagged_lem e c (p.new_ulid w).0 (p.new_ulid w).1 h in
        (
          (p.new_ulid w).0,
          inr ((eq_iff (c.header request_id_header) "").0 missing, refl),
          rw missing carries,
          rw missing shows,
        )
    | inr given ↦
        let (carries, shows) = tagged_lem e c (c.header request_id_header) w h in
        (
          c.header request_id_header,
          inl (
            (λ (e : c.header request_id_header ≡ "").
                ground (arith, eq_iff (c.header request_id_header) "")),
            refl,
          ),
          rw given carries,
          rw given shows,
        )
  ]
