-- ===== src/Process/Lifecycle.antt =====
-- How the process ends, and what it has done by then.
use mileage_core.Base.{String, ◌≡◌, ◌≢◌, ◌⊎◌, refl, inl, inr, Option, none, some, [], ◌∷◌, arith}
use mileage_core.Middleware.{fatal_level}
use mileage_core.Config.{Environment, Config, dsn, load}
use mileage_core.Process.{
  Call, new_production, log_line, connect, ping_db, close_db, ping_redis, close_redis, start,
  close_server, Thread, main_thread, Trace, Host, Exit, exited, finished, new_db, new_cache,
  serve_requests, with_db, with_cache, with_logger, main, db_pinged, db_connected, redis_pinged,
}
use mileage_core.Process.Serving.{
  before_connect, before_ping_db, before_ping_redis, before_server, Served, started-Reached,
  started-Counted, deferred-Served,
}

-- Neither is the server started nor is anything closed.
abbrev pub Idle : Thread × Call → Type 0
Idle (x, start addr) = ⊥
Idle (x, close_db) = ⊥
Idle (x, close_redis) = ⊥
Idle (x, close_server) = ⊥
Idle _ = Unit

abbrev pub AllIdle : Trace → Type 0
AllIdle [] = Unit
AllIdle (c ∷ cs) = Idle c × AllIdle cs

module _ (h : Host) where
  -- NewProduction, the connection to MySQL, its ping or that of Redis gives an error.
  abbrev pub Fails : Config → Type 0
  Fails cfg =
      (h.error new_production [] ≢ none)
      ⊎ ((h.error (connect (dsn cfg.db)) before_connect ≢ none)
          ⊎ ((h.error ping_db (before_ping_db cfg) ≢ none)
              ⊎ (h.error (ping_redis 5) (before_ping_redis cfg) ≢ none)))

  -- None of the four does.
  abbrev pub Connects : Config → Type 0
  Connects cfg =
      (h.error new_production [] ≡ none)
      × (h.error (connect (dsn cfg.db)) before_connect ≡ none)
      × (h.error ping_db (before_ping_db cfg) ≡ none)
      × (h.error (ping_redis 5) (before_ping_redis cfg) ≡ none)

  -- The last call is a fatal log line with an error.
  abbrev pub Aborted : Trace → Type 0
  Aborted t =
      (message e : String) × (before : Trace) × (t
        ≡ (main_thread, log_line fatal_level message (some e)) ∷ before)
      × AllIdle before

  abbrev pub Ended : Config → Exit × Trace → Type 0
  Ended cfg (exit, t) =
      ((exit ≡ exited 1) × Fails cfg × Aborted t)
      ⊎ ((exit ≡ finished) × Connects cfg × Served h cfg t)

  serve_lem : (cfg : Config) → Connects cfg → Ended cfg (serve_requests h cfg (before_server cfg))
  unfolding serve_requests
  serve_lem cfg works =
      inr (refl, works, deferred-Served h cfg _ (started-Reached h cfg) (started-Counted h cfg))

  -- By the answer to the ping of Redis, to that of MySQL, to the connection, and to NewProduction.
  cache_lem :
      (cfg : Config) (e : Option String)
      → h.error new_production [] ≡ none
      → h.error (connect (dsn cfg.db)) before_connect ≡ none
      → h.error ping_db (before_ping_db cfg) ≡ none
      → h.error (ping_redis 5) (before_ping_redis cfg) ≡ e
      → Ended cfg (
          with_cache h cfg
            (redis_pinged h (e, (main_thread, ping_redis 5) ∷ before_ping_redis cfg)))
  cache_lem cfg (some e) logger db ping is =
      inl (refl, inr (inr (inr (λ fine. cc))), (_, _, _, refl, omega arith))
  cache_lem cfg none logger db ping is = serve_lem cfg (logger, db, ping, is)

  db_lem :
      (cfg : Config) (e : Option String)
      → h.error new_production [] ≡ none
      → h.error (connect (dsn cfg.db)) before_connect ≡ none
      → h.error ping_db (before_ping_db cfg) ≡ e
      → Ended cfg (with_db h cfg (db_pinged h (e, (main_thread, ping_db) ∷ before_ping_db cfg)))
  unfolding new_cache
  db_lem cfg (some e) logger db is =
      inl (refl, inr (inr (inl (λ fine. cc))), (_, _, _, refl, omega arith))
  db_lem cfg none logger db is = cache_lem cfg _ logger db is refl

  connect_lem :
      (cfg : Config) (e : Option String)
      → h.error new_production [] ≡ none
      → h.error (connect (dsn cfg.db)) before_connect ≡ e
      → Ended cfg
          (with_db h cfg (db_connected h (e, (main_thread, connect (dsn cfg.db)) ∷ before_connect)))
  connect_lem cfg (some e) logger is =
      inl (refl, inr (inl (λ fine. cc)), (_, _, _, refl, omega arith))
  connect_lem cfg none logger is = db_lem cfg _ logger is refl

  logger_lem :
      (cfg : Config) (e : Option String)
      → h.error new_production [] ≡ e
      → Ended cfg (with_logger h cfg (e, before_connect))
  unfolding new_db
  logger_lem cfg (some e) is = inl (refl, inl (λ fine. cc), (_, _, _, refl, omega arith))
  logger_lem cfg none is = connect_lem cfg _ is refl

  -- If NewProduction, the connection to MySQL, its ping or the ping of Redis gives an error, main
  -- exits with status 1; its last call is then a fatal log line with an error, and nothing has
  -- been closed, a connected database included, and no server started. If none of the four does,
  -- main returns after Start, whatever turns the schedule gives to the goroutine for the shutdown.
  -- Main's own calls are then, in order, the logger, MySQL with its pool and ping, Redis with its
  -- ping, the server's start at the configured port, a log line with the error of Start if it has
  -- returned one at that point, the closing of Redis, that of MySQL, and the flush of the logger.
  -- The goroutine's calls are none without a turn, Notify after one, then the line for a signal
  -- after two, then Echo.Close after three, and from four turns on also the line for the error
  -- that Close has given, if it is one.
  pub main_lem : (env : Environment) → Ended (load env) (main h env)
  unfolding main
  main_lem env = logger_lem (load env) _ refl
