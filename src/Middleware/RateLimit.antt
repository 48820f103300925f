-- ===== src/Middleware/RateLimit.antt =====
-- internal/server/middleware/ratelimit.go
use mileage_core.Base.{[], if◌then◌else◌}
use mileage_core.Effect.{returns}
use mileage_core.Platform.{Platform}
use mileage_core.Handler.{Response, plain_error}
use mileage_core.Middleware.{Serve, Web}

abbrev pub too_many_requests : Response
too_many_requests = record {
  status = 429;
  body = plain_error "RATE_LIMIT_EXCEEDED" "too many requests";
  counted = [];
  headers = [];
}

-- RateLimit
unfoldable pub rate_limited : (p : Platform) → Web p → Serve p → Serve p
rate_limited p web next c w =
    let (allowed, w') = web.allow w in if allowed then next c w' else returns too_many_requests w'
