-- ===== src/Router/Delivery.antt =====
-- A request with a token from the router through all of the middleware to its endpoint and back.
use text.Mathlib.Text.{◌==◌ as str_eq}
use mileage_core.Base.{
  ℕ, List, String, ◌<>◌, true, ◌≡◌, ◌≢◌, refl, sym, ◌∙◌, subst, inl, inr, Option, some, ◌∷◌,
  Bool-cases, if◌then◌else◌,
}
use mileage_core.Base.Int.{ℤ, ◌<ℤ◌}
use mileage_core.Effect.{Outcome, returns}
use mileage_core.Platform.{Platform, done}
use mileage_core.Tables.{Tables}
use mileage_core.Mysql.Contract.{Server}
use mileage_core.Mysql.UserRepository.{Identity, Claims}
use mileage_core.Handler.{Request, Response, Body}
use mileage_core.Middleware.{Serve, Web, SigningMethod, LogEntry, Collector}
use mileage_core.Middleware.RequestId.{request_id_header, with_header, tagged, with_request_id}
use mileage_core.Middleware.RateLimit.{rate_limited}
use mileage_core.Middleware.Auth.{key_for}
use mileage_core.Middleware.Auth.Session.{Accepts, bearer_lem}
use mileage_core.Middleware.Logger.{after_request, with_logger}
use mileage_core.Middleware.Metrics.{recorded, after_handler, with_metrics}
use mileage_core.Config.{Config}
use mileage_core.Router.{Route, routes, Echo, handler_of, dispatch, around, serve}
use mileage_core.Router.Refusal.{Passing}

-- What the middleware calls outside of this repository does not touch the database.
pub record Quiet (p : Platform) (s : Server p) (web : Web p) : Type 0 where
  pub allow_law : (w : p.World) → s.committed (web.allow w).1 ≡ s.committed w
  pub parse_token_law :
      (token : String) (keys : SigningMethod → Option String) (w : p.World)
      → s.committed (web.parse_token token keys w).1 ≡ s.committed w
  pub now_law : (w : p.World) → s.committed (web.now w).1 ≡ s.committed w
  pub write_log_law : (e : LogEntry) (w : p.World) → s.committed (web.write_log e w) ≡ s.committed w
  pub increment_law :
      (v : Collector) (labels : List String) (w : p.World)
      → s.committed (web.increment v labels w) ≡ s.committed w
  pub observe_law :
      (v : Collector) (labels : List String) (d : ℤ) (w : p.World)
      → s.committed (web.observe v labels d w) ≡ s.committed w

module _ (p : Platform) (web : Web p) where
  open p use {World, new_ulid}

  -- The identifier of a request, and the world once it is known.
  abbrev pub identified : Request → World → String × World
  identified c w =
      if str_eq (c.header request_id_header) "" then new_ulid w else (c.header request_id_header, w)

  with_request_id-tagged :
      (next : Serve p) (c : Request) (w : World)
      → with_request_id p next c w ≡ tagged p next (identified c w).0 c (identified c w).1
  unfolding with_request_id
  with_request_id-tagged next c w = elim (Bool-cases (str_eq (c.header request_id_header) "")) [
    | inl missing ↦ rw missing refl
    | inr given ↦ rw given refl
  ]

  -- The world in which the limiter is asked, after the clocks of the logger and the metrics.
  abbrev pub limiting : Request → World → World
  limiting c w = (web.now (web.now (identified c w).1).1).1

  -- The world in which the request reaches the JWT middleware.
  abbrev pub arriving : Request → World → World
  arriving c w = (web.allow (limiting c w)).1

  -- The request as an endpoint sees it.
  abbrev pub delivered : Request → Route → String → World → Request
  delivered c r user w = record c {
    route = r.path;
    request_id = some (identified c w).0;
    user_id = some user;
  }

-- A response, of which this holds with the tables after it.
abbrev pub Ends :
    (p : Platform) (s : Server p) → (ℕ → Body → Tables → Type 0) → Outcome p.World Response → Type 0
Ends p s Q o =
    (r : Response) × (w : p.World) × (o ≡ returns r w) × Q r.status r.body (s.committed w)

module _ (p : Platform) (s : Server p) (i : Identity p) (web : Web p) (quiet : Quiet p s web)
    (echo : Echo p) (passing : Passing p echo) (config : Config) where
  open p use {World}

  module _ (Q : ℕ → Body → Tables → Type 0) where
    headed :
        (name value : String) (o : Outcome World Response)
        → Ends p s Q o
        → Ends p s Q (with_header name value o)
    headed name value o (r, w, is, q) =
        rw is (record r { headers = (name, value) ∷ r.headers }, w, refl, q)

    logged :
        (c : Request) (o : Outcome World Response)
        → Ends p s Q o
        → Ends p s Q (after_request p web c o)
    logged c o (r, w, is, q) =
        rw is (
          r,
          _,
          refl,
          subst (Q r.status r.body) (sym (quiet.write_log_law _ _ ∙ quiet.now_law w)) q,
        )

    metered :
        (c : Request) (start : ℤ) (o : Outcome World Response)
        → Ends p s Q o
        → Ends p s Q (after_handler p web c start o)
    unfolding recorded
    metered c start o (r, w, is, q) = rw is (
      r,
      _,
      refl,
      subst (Q r.status r.body)
          (sym (quiet.observe_law _ _ _ _ ∙ quiet.increment_law _ _ _ ∙ quiet.now_law w)) q,
    )

    recover-Ends :
        (next : Serve p) (c : Request) (w : World)
        → Ends p s Q (next c w)
        → Ends p s Q (echo.recover next c w)
    recover-Ends next c w (r, w', is, q) = (r, w', passing.recover_law next c w w' r is, q)

    cors-Ends :
        (next : Serve p) (c : Request) (w : World)
        → c.method ≢ "OPTIONS"
        → Ends p s Q (next c w)
        → Ends p s Q (echo.cors next c w)
    cors-Ends next c w simple (r, w', is, q) =
        let (headers, answer) = passing.cors_law next c w w' r simple is in
        (record r { headers = headers }, w', answer, q)

    -- Behind RequestID and Recover: the logger, the metrics, the limiter and CORS.
    inner-Ends :
        (next : Serve p) (c : Request) (w : World)
        → c.method ≢ "OPTIONS"
        → (web.allow (web.now (web.now w).1).1).0 ≡ true
        → Ends p s Q (next c (web.allow (web.now (web.now w).1).1).1)
        → Ends p s Q
            (with_logger p web (with_metrics p web (rate_limited p web (echo.cors next))) c w)
    unfolding with_logger with_metrics rate_limited
    inner-Ends next c w simple allowed ends =
        logged c _ (metered c _ _ (rw allowed (cors-Ends next c _ simple ends)))

    around-Ends :
        (next : Serve p) (c : Request) (w : World)
        → c.method ≢ "OPTIONS"
        → (web.allow (limiting p web c w)).0 ≡ true
        → Ends p s Q
            (next (record c { request_id = some (identified p web c w).0 }) (arriving p web c w))
        → Ends p s Q (around p i web echo config next c w)
    around-Ends next c w simple allowed ends = recover-Ends _ c w (
        rw (with_request_id-tagged p web _ c w)
          (headed _ _ _ (inner-Ends next _ _ simple allowed ends)))

    -- A request with a token that is signed for a user and has not expired ends as its endpoint does
    -- for that user.
    pub serve-Ends :
        (a : Accepts p i web) (c : Request) (w : World) (r : Route) (claims : Claims)
        (token : String)
        → echo.find routes c ≡ some r
        → r.is_protected ≡ true
        → c.method ≢ "OPTIONS"
        → (web.allow (limiting p web c w)).0 ≡ true
        → c.header "Authorization" ≡ "Bearer" <> (" " <> token)
        → claims.sub ≢ ""
        → i.signed_string config.jwt.secret claims ≡ done token
        → a.time (arriving p web c w) <ℤ claims.exp
        → Ends p s Q (
            handler_of p i web echo config r.endpoint
              (delivered p web c r claims.sub w)
              (web.parse_token token (key_for config.jwt.secret) (arriving p web c w)).1)
        → Ends p s Q (serve p i web echo config c w)
    unfolding serve dispatch
    serve-Ends a c w r claims token found protected simple allowed sent named signed early ends =
        rw found (
          around-Ends _ _ w simple allowed (
            rw protected (
              rw
                (bearer_lem p i web a config.jwt (handler_of p i web echo config r.endpoint)
                  (record c { route = r.path; request_id = some (identified p web c w).0 })
                  (arriving p web c w) claims token sent named signed early)
                ends)))
