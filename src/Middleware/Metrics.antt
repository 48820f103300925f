-- ===== src/Middleware/Metrics.antt =====
-- internal/server/middleware/metrics.go. RecordBusinessOp is `counting` of the handlers.
use text.Mathlib.Text.{◌==◌ as str_eq}
use mileage_core.Base.{ℕ, String, [], ◌∷◌, if◌then◌else◌}
use mileage_core.Base.Int.{ℤ, ◌-ℤ◌}
use mileage_core.GoText.{itoa}
use mileage_core.Effect.{Outcome, returns, fails, panics}
use mileage_core.Platform.{Platform}
use mileage_core.Handler.{Request, Response}
use mileage_core.Middleware.{Serve, Web, Collector}

-- httpRequestsTotal
abbrev pub http_requests_total : Collector
http_requests_total = record {
  name = "http_requests_total";
  help = "Total number of HTTP requests";
  labels = "method" ∷ "path" ∷ "status" ∷ [];
  buckets = [];
}

-- httpRequestDuration
abbrev pub http_request_duration : Collector
http_request_duration = record {
  name = "http_request_duration_seconds";
  help = "HTTP request duration in seconds";
  labels = "method" ∷ "path" ∷ [];
  buckets = 5 ∷ 10 ∷ 25 ∷ 50 ∷ 100 ∷ 200 ∷ 500 ∷ 1000 ∷ [];
}

-- The label for the path: the route's, or else the request's.
abbrev pub label_path : Request → String
label_path c = if str_eq c.route "" then c.path else c.route

module _ (p : Platform) (web : Web p) where
  open p use {World}
  open web use {now, increment, observe, initial_status}

  -- The counter and the histogram, at the end of a request that began at `start`.
  unfoldable pub recorded : Request → ℤ → ℕ → World → World
  recorded c start status w =
      let (end, w') = now w in
      observe http_request_duration (c.method ∷ label_path c ∷ []) (end -ℤ start)
        (increment http_requests_total (c.method ∷ label_path c ∷ itoa status ∷ []) w')

  abbrev pub after_handler : Request → ℤ → Outcome World Response → Outcome World Response
  after_handler c start (returns r w) = returns r (recorded c start r.status w)
  after_handler c start (fails e w) = fails e (recorded c start initial_status w)
  after_handler c start (panics w) = panics w

  -- Metrics
  unfoldable pub with_metrics : Serve p → Serve p
  with_metrics next c w = let (start, w') = now w in after_handler c start (next c w')
