-- ===== src/Middleware/Logger.antt =====
-- internal/server/middleware/logger.go. The latency, the address, the user and the error's text are
-- left out of the log line.
use mileage_core.Base.{ℕ, String, leb, if◌then◌else◌}
use mileage_core.Effect.{Outcome, returns, fails, panics}
use mileage_core.Platform.{Platform}
use mileage_core.Handler.{Request, Response, get_request_id}
use mileage_core.Middleware.{Serve, Level, info_level, warn_level, error_level, LogEntry, Web}

abbrev pub entry : Request → Level → String → ℕ → LogEntry
entry c level message status = record {
  level = level;
  message = message;
  method = c.method;
  path = c.path;
  status = status;
  request_id = get_request_id c;
}

-- The line for a response that has been written.
abbrev pub completed : Request → ℕ → LogEntry
completed c status =
    if leb 400 status
    then entry c warn_level "request completed with error status" status
    else entry c info_level "request completed" status

module _ (p : Platform) (web : Web p) where
  open p use {World}
  open web use {now, write_log, initial_status}

  abbrev pub after_request : Request → Outcome World Response → Outcome World Response
  after_request c (returns r w) = returns r (write_log (completed c r.status) (now w).1)
  after_request c (fails e w) =
      fails e (write_log (entry c error_level "request failed" initial_status) (now w).1)
  after_request c (panics w) = panics w

  -- Logger
  unfoldable pub with_logger : Serve p → Serve p
  with_logger next c w = after_request c (next c (now w).1)
