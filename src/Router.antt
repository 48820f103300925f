-- ===== src/Router.antt =====
-- internal/server/router.go: the routes, and the middleware around them. A group that has middleware
-- also registers routes for all other paths under it, inside echo; what answers there is `unrouted`.
pub mod Access
pub mod Correlation
pub mod Refusal
pub mod Delivery
pub mod Posting
use mileage_core.Base.{
  String, ◌<>◌, Bool, true, false, Option, none, some, List, [], ◌∷◌, ◌++◌, map, if◌then◌else◌,
}
use mileage_core.Effect.{returns}
use mileage_core.Platform.{Platform}
use mileage_core.Mysql.UserRepository.{Identity}
use mileage_core.Usecase.Auth.{Credentials}
use mileage_core.Handler.{Request, Response, status_text}
use mileage_core.Handler.Auth.{handle_signup, handle_login}
use mileage_core.Handler.Mileage.{
  PostingRequest, handle_balance, handle_transactions, handle_grant, handle_redeem,
}
use mileage_core.Handler.Achievement.{AchievementRequest, handle_event}
use mileage_core.Middleware.{Serve, Web}
use mileage_core.Middleware.RequestId.{with_request_id}
use mileage_core.Middleware.RateLimit.{rate_limited}
use mileage_core.Middleware.Auth.{authenticated}
use mileage_core.Middleware.Logger.{with_logger}
use mileage_core.Middleware.Metrics.{with_metrics}
use mileage_core.Config.{Config}

-- The handlers that are registered.
pub data Endpoint : Type 0 where
  health metrics signup login balance transactions grant redeem achievements : Endpoint
  profile : String → Endpoint

pub record Route : Type 0 where
  pub method : String
  pub path : String
  pub endpoint : Endpoint
  -- Whether it is registered on the group behind middleware.Auth.
  pub is_protected : Bool

abbrev pub get : String → Endpoint → Route
get path e = record { method = "GET"; path = path; endpoint = e; is_protected = false }

abbrev pub post : String → Endpoint → Route
post path e = record { method = "POST"; path = path; endpoint = e; is_protected = false }

-- e.Group, with the group's prefix.
abbrev pub under : String → Route → Route
under prefix r = record r { path = prefix <> r.path }

-- The group behind middleware.Auth.
abbrev pub protected : Route → Route
protected r = record r { is_protected = true }

abbrev pub profiles : List String
profiles = "cmdline" ∷ "profile" ∷ "symbol" ∷ "trace" ∷ "heap" ∷ "goroutine" ∷ "allocs" ∷ []

-- The routes of NewRouter, in order.
abbrev pub routes : List Route
routes =
    (get "/health" health ∷ get "/metrics" metrics ∷ [])
    ++ (map (under "/debug/pprof")
          (get "/" (profile "index") ∷ map (λ name. get ("/" <> name) (profile name)) profiles)
        ++ map (under "/v1") (
            (post "/auth/signup" signup ∷ post "/auth/login" login ∷ [])
            ++ map protected (
                get "/mileage/balance" balance
                ∷ get "/mileage/transactions" transactions
                ∷ post "/mileage/grant" grant
                ∷ post "/mileage/redeem" redeem
                ∷ post "/achievements" achievements
                ∷ [])))

-- Code outside the repository: echo with its own middleware and c.Bind, and the wrapped handlers.
pub record Echo (p : Platform) : Type 0 where
  -- The route of a request.
  pub find : List Route → Request → Option Route
  -- What answers a request without a route.
  pub unrouted : Serve p
  -- Recover(), and CORSWithConfig for any origin
  pub recover : Serve p → Serve p
  pub cors : Serve p → Serve p
  pub bind_credentials : Request → Option Credentials
  pub bind_posting : Request → Option PostingRequest
  pub bind_event : Request → Option AchievementRequest
  -- promhttp.Handler() and pprof.Handler(name)
  pub metrics_page : Serve p
  pub profile_page : String → Serve p

module _ (p : Platform) (i : Identity p) (web : Web p) (echo : Echo p) (config : Config) where
  -- The handler of an endpoint.
  abbrev pub handler_of : Endpoint → Serve p
  handler_of health c w =
      returns (record { status = 200; body = status_text "ok"; counted = []; headers = [] }) w
  handler_of metrics c w = echo.metrics_page c w
  handler_of (profile name) c w = echo.profile_page name c w
  handler_of signup c w = handle_signup p i config.jwt c (echo.bind_credentials c) w
  handler_of login c w = handle_login p i config.jwt c (echo.bind_credentials c) w
  handler_of balance c w = handle_balance p c w
  handler_of transactions c w = handle_transactions p c w
  handler_of grant c w = handle_grant p c (echo.bind_posting c) w
  handler_of redeem c w = handle_redeem p c (echo.bind_posting c) w
  handler_of achievements c w = handle_event p c (echo.bind_event c) w

  -- The handler of a route, behind the middleware of its group.
  abbrev pub route_handler : Route → Serve p
  route_handler r =
      if r.is_protected
      then authenticated p web config.jwt.secret (handler_of r.endpoint)
      else handler_of r.endpoint

  unfoldable pub dispatch : Option Route → Serve p
  dispatch none c w = echo.unrouted c w
  dispatch (some r) c w = route_handler r c w

  abbrev pub route_path : Option Route → String
  route_path none = ""
  route_path (some r) = r.path

  -- The middleware around a handler, from the outermost on.
  abbrev pub around : Serve p → Serve p
  around next = echo.recover (
      with_request_id p
        (with_logger p web (with_metrics p web (rate_limited p web (echo.cors next)))))

  -- NewRouter: what serves a request, once echo has set its route.
  unfoldable pub serve : Serve p
  serve c w =
      let found = echo.find routes c in
      around (dispatch found) (record c { route = route_path found }) w
