-- ===== src/Process.antt =====
-- cmd/api/main.go, with internal/infra/mysql/db.go and NewCache of internal/infra/redis/cache.go: the
-- process from its start to its end, with the goroutine for the shutdown interleaved. Every call of
-- outside code is recorded, and its answer, an error or nil, may depend on all calls before it. What
-- the server does with a request is Router.serve.
pub mod Threads
pub mod Turns
pub mod Serving
pub mod Lifecycle
use mileage_core.Base.{ℕ, zero, suc, String, ◌<>◌, Option, none, some, List, [], ◌∷◌}
use mileage_core.Middleware.{Level, info_level, error_level, fatal_level}
use mileage_core.Config.{Environment, Config, dsn, load}

pub data Call : Type 0 where
  -- zap.NewProduction, Logger.Sync, and a log line with the error it shows
  new_production sync_logger : Call
  log_line : Level → String → Option String → Call
  -- sqlx.Connect, SetMaxOpenConns, SetMaxIdleConns, PingContext, Close
  connect : String → Call
  set_max_open_conns set_max_idle_conns : ℕ → Call
  ping_db close_db : Call
  -- redis.NewClient, Ping with a timeout in seconds, Close
  new_client : String → Call
  ping_redis : ℕ → Call
  close_redis : Call
  -- signal.Notify for SIGINT and SIGTERM, Echo.Start, Echo.Close
  notify : Call
  start : String → Call
  close_server : Call

-- main, and the goroutine that waits for a signal.
pub data Thread : Type 0 where
  main_thread shutdown_thread : Thread

-- The calls so far, the latest first, with who has made them.
abbrev pub Trace : Type 0
Trace = List (Thread × Call)

-- Outside code: the error of a call; and the schedule, which is the number of steps that the goroutine
-- makes after these calls and before the next one of main. It makes a step out of its wait for a
-- signal only when one has come.
pub record Host : Type 0 where
  pub error : Call → Trace → Option String
  pub turns : Trace → ℕ

-- Where the goroutine stands: before signal.Notify, before `<-quit` has given a signal, before Echo.Close,
-- before its error has been looked at, and at the end.
pub data Goroutine : Type 0 where
  launched waiting signalled : Goroutine
  closed : Option String → Goroutine
  over : Goroutine

-- How the process ends: os.Exit with a status, which runs no deferred call, or main returns.
pub data Exit : Type 0 where
  exited : ℕ → Exit
  finished : Exit

module _ (h : Host) where
  -- A call of main with its error.
  abbrev pub make : Call → Trace → Option String × Trace
  make c t = (h.error c t, (main_thread, c) ∷ t)

  -- NewDB after its ping, and after its connection.
  abbrev pub db_pinged : Option String × Trace → Option String × Trace
  db_pinged (some e, t) = (some ("failed to ping mysql: " <> e), t)
  db_pinged (none, t) = (none, (main_thread, log_line info_level "connected to MySQL" none) ∷ t)

  abbrev pub db_connected : Option String × Trace → Option String × Trace
  db_connected (some e, t) = (some ("failed to connect to mysql: " <> e), t)
  db_connected (none, t) = db_pinged (
      make ping_db
        ((main_thread, set_max_idle_conns 10) ∷ (main_thread, set_max_open_conns 25) ∷ t))

  -- NewDB
  unfoldable pub new_db : String → Trace → Option String × Trace
  new_db source t = db_connected (make (connect source) t)

  abbrev pub redis_pinged : Option String × Trace → Option String × Trace
  redis_pinged (some e, t) = (some ("failed to connect to redis: " <> e), t)
  redis_pinged (none, t) = (none, (main_thread, log_line info_level "connected to Redis" none) ∷ t)

  -- NewCache
  unfoldable pub new_cache : String → Trace → Option String × Trace
  new_cache addr t = redis_pinged (make (ping_redis 5) ((main_thread, new_client addr) ∷ t))

  -- One step of the goroutine.
  unfoldable pub shut_down : Goroutine → Trace → Goroutine × Trace
  shut_down launched t = (waiting, (shutdown_thread, notify) ∷ t)
  shut_down waiting t =
      (signalled, (shutdown_thread, log_line info_level "shutting down server..." none) ∷ t)
  shut_down signalled t = (closed (h.error close_server t), (shutdown_thread, close_server) ∷ t)
  shut_down (closed (some e)) t =
      (over, (shutdown_thread, log_line error_level "server shutdown error" (some e)) ∷ t)
  shut_down (closed none) t = (over, t)
  shut_down over t = (over, t)

  -- So many steps of the goroutine.
  unfoldable pub take_turns : ℕ → Goroutine × Trace → Goroutine × Trace
  take_turns zero s = s
  take_turns (suc n) (g, t) = take_turns n (shut_down g t)

  -- The goroutine's steps before the next call of main.
  abbrev pub meanwhile : Goroutine × Trace → Goroutine × Trace
  meanwhile s = take_turns (h.turns s.1) s

  -- A call of main, and what the goroutine does until the next one.
  abbrev pub call : Call → Goroutine × Trace → Goroutine × Trace
  call c (g, t) = meanwhile (g, (main_thread, c) ∷ t)

  -- What Start has returned is logged if it is an error.
  abbrev pub stopped : Option String → Goroutine × Trace → Goroutine × Trace
  stopped (some e) s = call (log_line info_level "server stopped" (some e)) s
  stopped none s = s

  -- The deferred calls, the last one first. With the end of main the goroutine ends too.
  abbrev pub deferred : Goroutine × Trace → Trace
  deferred s = (main_thread, sync_logger) ∷ (call close_db (call close_redis s)).1

  -- main from the goroutine on. Start returns after all that the goroutine does while it blocks.
  unfoldable pub serve_requests : Config → Trace → Exit × Trace
  serve_requests cfg t =
      let addr = ":" <> cfg.port in
      let s =
        call (start addr)
          (call (log_line info_level "starting server" (some addr)) (meanwhile (launched, t))) in
      (finished, deferred (stopped (h.error (start addr) s.1) s))

  abbrev pub with_cache : Config → Option String × Trace → Exit × Trace
  with_cache cfg (some e, t) =
      (exited 1, (main_thread, log_line fatal_level "failed to connect to Redis" (some e)) ∷ t)
  with_cache cfg (none, t) = serve_requests cfg t

  abbrev pub with_db : Config → Option String × Trace → Exit × Trace
  with_db cfg (some e, t) =
      (exited 1, (main_thread, log_line fatal_level "failed to connect to MySQL" (some e)) ∷ t)
  with_db cfg (none, t) = with_cache cfg (new_cache cfg.redis.addr t)

  abbrev pub with_logger : Config → Option String × Trace → Exit × Trace
  with_logger cfg (some e, t) =
      (exited 1, (main_thread, log_line fatal_level "failed to create logger" (some e)) ∷ t)
  with_logger cfg (none, t) = with_db cfg (new_db (dsn cfg.db) t)

  -- main
  unfoldable pub main : Environment → Exit × Trace
  unfolding new_db new_cache serve_requests
  main env = with_logger (load env) (make new_production [])
