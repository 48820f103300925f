-- ===== src/Router/Refusal.antt =====
-- What serves a request without a token, through all of the middleware.
use text.Mathlib.Text.{◌==◌ as str_eq}
use mileage_core.Base.{String, true, ◌≡◌, ◌≢◌, ◌⊎◌, refl, inl, inr, some, List, ◌∷◌, Bool-cases}
use mileage_core.Base.Int.{ℤ}
use mileage_core.Effect.{Outcome, returns}
use mileage_core.Platform.{Platform}
use mileage_core.Mysql.UserRepository.{Identity}
use mileage_core.Handler.{Request, Response}
use mileage_core.Middleware.{Serve, Web}
use mileage_core.Middleware.RequestId.{request_id_header, with_header, with_request_id}
use mileage_core.Middleware.RateLimit.{too_many_requests, rate_limited}
use mileage_core.Middleware.Auth.{unauthorized, authenticated}
use mileage_core.Middleware.Logger.{after_request, with_logger}
use mileage_core.Middleware.Metrics.{after_handler, with_metrics}
use mileage_core.Config.{Config}
use mileage_core.Router.{Route, routes, Echo, dispatch, serve}
use mileage_core.Router.Access.{Routing, NeedsUser, route-protected}

-- A response to a request that has not reached a handler: not authorized, or too many requests.
abbrev pub IsRefusal : Response → Type 0
IsRefusal r =
    ((r.status ≡ 401) × (r.body ≡ (unauthorized "missing authorization header").body))
    ⊎ ((r.status ≡ 429) × (r.body ≡ too_many_requests.body))

pub data Refused {W : Type 0} (o : Outcome W Response) : Type 0 where
  answered : (r : Response) (w : W) → o ≡ returns r w → IsRefusal r → Refused o

-- What is relied on of echo's own middleware: Recover passes a response on, and CORS only adds
-- headers, except to the answer of an OPTIONS request.
pub record Passing (p : Platform) (echo : Echo p) : Type 1 where
  pub recover_law :
      (next : Serve p) (c : Request) (w w' : p.World) (r : Response)
      → next c w ≡ returns r w'
      → echo.recover next c w ≡ returns r w'
  pub cors_law :
      (next : Serve p) (c : Request) (w w' : p.World) (r : Response)
      → c.method ≢ "OPTIONS"
      → next c w ≡ returns r w'
      → (headers : List (String × String)) × (echo.cors next c w
          ≡ returns (record r { headers = headers }) w')

module _ (p : Platform) (i : Identity p) (web : Web p) (echo : Echo p) (passing : Passing p echo)
    (routing : Routing p echo) (config : Config) where
  open p use {World}

  recover-Refused :
      (next : Serve p) (c : Request) (w : World)
      → Refused (next c w)
      → Refused (echo.recover next c w)
  recover-Refused next c w (answered r w' is how) =
      answered r w' (passing.recover_law next c w w' r is) how

  cors-Refused :
      (next : Serve p) (c : Request) (w : World)
      → c.method ≢ "OPTIONS"
      → Refused (next c w)
      → Refused (echo.cors next c w)
  cors-Refused next c w simple (answered r w' is how) =
      let (headers, answer) = passing.cors_law next c w w' r simple is in
      answered (record r { headers = headers }) w' answer how

  -- Behind the logger, the metrics, the limiter and CORS.
  inner-Refused :
      (r : Route) (c : Request) (w : World)
      → r.is_protected ≡ true
      → c.header "Authorization" ≡ ""
      → c.method ≢ "OPTIONS"
      → Refused (
          with_logger p web
            (with_metrics p web
              (rate_limited p web (echo.cors (dispatch p i web echo config (some r)))))
            c
            w)
  unfolding with_logger with_metrics rate_limited dispatch authenticated
  inner-Refused r c w protected anonymous simple = logged _ (metered _ _ (limited _))
    where
      limited :
          (v : World)
          → Refused (rate_limited p web (echo.cors (dispatch p i web echo config (some r))) c v)
      limited v = elim (Bool-cases (web.allow v).0) [
        | inl allowed ↦ rw allowed (
            cors-Refused (dispatch p i web echo config (some r)) c (web.allow v).1 simple
              (rw (protected, anonymous) (answered _ _ refl (inl (refl, refl)))))
        | inr refused ↦ rw refused (answered _ _ refl (inr (refl, refl)))
      ]

      logged : (o : Outcome World Response) → Refused o → Refused (after_request p web c o)
      logged o (answered r w' is how) = rw is (answered r _ refl how)

      metered :
          (start : ℤ) (o : Outcome World Response)
          → Refused o
          → Refused (after_handler p web c start o)
      metered start o (answered r w' is how) = rw is (answered r _ refl how)

  -- A request without an Authorization header, with another method than OPTIONS, whose route leads
  -- to an endpoint for a user's balance, transactions, postings or achievements, is answered through
  -- all of the middleware with status and body of the JWT middleware's 401 or the limiter's 429.
  pub serve-Refused :
      (c : Request) (w : World) (r : Route)
      → echo.find routes c ≡ some r
      → NeedsUser r.endpoint
      → c.header "Authorization" ≡ ""
      → c.method ≢ "OPTIONS"
      → Refused (serve p i web echo config c w)
  unfolding serve with_request_id
  serve-Refused c w r found needs anonymous simple = rw found (
      recover-Refused _ _ _ (elim (Bool-cases (str_eq (c.header request_id_header) "")) [
        | inl missing ↦ rw missing (headed _ _ _ (inner-Refused r _ _ protected anonymous simple))
        | inr given ↦ rw given (headed _ _ _ (inner-Refused r _ _ protected anonymous simple))
      ]))
    where
      protected : r.is_protected ≡ true
      protected = route-protected p echo routing c r found needs

      headed :
          (name value : String) (o : Outcome World Response)
          → Refused o
          → Refused (with_header name value o)
      headed name value o (answered r w' is how) =
          rw is (answered (record r { headers = (name, value) ∷ r.headers }) w' refl how)
