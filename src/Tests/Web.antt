-- ===== src/Tests/Web.antt =====
-- Requests through the middleware on the memory platform.
use mileage_core.Base.{arith, String, ◌<>◌, ◌≡◌, ◌≢◌, refl, some}
use mileage_core.Base.Int.{pos, ◌<ℤ◌, ◌+ℤ◌}
use mileage_core.Effect.{returns, Ensures}
use mileage_core.Mysql.Tx.{background}
use mileage_core.Usecase.Auth.{unix, login}
use mileage_core.Handler.{Request}
use mileage_core.Middleware.{Serve}
use mileage_core.Middleware.Auth.{authenticated, with_parts, cut_space, unauthorized}
use mileage_core.Middleware.Auth.Session.{login-authenticated}
use mileage_core.Config.{get_env_int}
use mileage_core.Config.Values.{token_lifetime, get_env_int-itoa}
use mileage_core.Base.{◌≤◌, ◌*◌}
use mileage_core.Router.{serve, Endpoint, routes, handler_of}
use mileage_core.Router.Refusal.{Refused, serve-Refused}
use mileage_core.Router.Correlation.{IsIdentifier, Carries, Shows, with_request_id-Shows}
use mileage_core.Middleware.RequestId.{with_request_id}
use mileage_core.Tests.Memory.{Memory, memory}
use mileage_core.Tests.Auth.{identity, directory, config, alice, sign_up, after}
use mileage_core.Tests.Posting.{start}
use mileage_core.Tests.Gateway.{
  after_prefix, web, parse, jwt, accepts, whoami, find, echo, routing, grant_request, environment,
  sent, settings, grant_route, passing, not_options,
}

-- The token's user reaches the handler; without a token nobody does.
admitted :
    authenticated memory web "key" whoami sent start
    ≡ whoami (record sent { user_id = some "alice" }) start
unfolding authenticated with_parts cut_space parse after_prefix
admitted = refl

rejected :
    authenticated memory web "key" whoami (grant_request "") start
    ≡ returns (unauthorized "missing authorization header") start
unfolding authenticated
rejected = refl

login-authenticated_example :
    Ensures
      (λ out w'.
        (next : Serve memory) (c : Request) (v : Memory)
        → c.header "Authorization" ≡ "Bearer" <> (" " <> out.token)
        → out.user_id ≢ ""
        → pos 0 <ℤ unix (pos 0 +ℤ config.expiry_time)
        → (v' : Memory) × (authenticated memory web config.secret next c v
            ≡ next (record c { user_id = some out.user_id }) v'))
      (λ e w'. Unit {0})
      (login memory identity config background alice (after (sign_up alice start)))
login-authenticated_example =
    login-authenticated memory identity web accepts config directory alice
      (after (sign_up alice start))

with_request_id-Shows_example :
    (id : String) × IsIdentifier memory identity web echo settings sent start id
    × Carries id (
        with_request_id memory
          (handler_of memory identity web echo settings Endpoint.grant)
          sent
          start)
    × Shows id (
        with_request_id memory
          (handler_of memory identity web echo settings Endpoint.grant)
          sent
          start)
with_request_id-Shows_example =
    with_request_id-Shows memory identity web echo settings Endpoint.grant sent start tt

token_lifetime_example :
    (48 ≤ 2562047 → settings.jwt.expiry_time ≡ pos (3600000000000 * 48))
    × (2562048 ≤ 48 → 48 ≤ 5124095 → settings.jwt.expiry_time <ℤ pos 0)
token_lifetime_example = token_lifetime environment 48 refl

get_env_int-itoa_example : get_env_int environment "JWT_EXPIRY_HOURS" (pos 24) ≡ pos 48
get_env_int-itoa_example =
    get_env_int-itoa environment "JWT_EXPIRY_HOURS" (pos 24) 48 (omega arith) refl

anonymous_found : echo.find routes (grant_request "") ≡ some grant_route
unfolding find
anonymous_found = refl

serve-Refused_example : Refused (serve memory identity web echo settings (grant_request "") start)
serve-Refused_example =
    serve-Refused memory identity web echo passing routing settings (grant_request "") start
      grant_route anonymous_found tt refl not_options
