-- ===== src/Process/Serving.antt =====
-- main from the connected stores to its end, with the goroutine for the shutdown.
use mileage_core.Base.{String, ◌<>◌, ◌≡◌, refl, ap, Option, none, some, List, [], ◌∷◌, ◌++◌}
use mileage_core.Middleware.{info_level}
use mileage_core.Config.{Config, dsn}
use mileage_core.Process.{
  Call, new_production, sync_logger, log_line, connect, set_max_open_conns, set_max_idle_conns,
  ping_db, close_db, new_client, ping_redis, close_redis, start, main_thread, Trace, Host,
  Goroutine, launched, meanwhile, call, stopped, deferred,
}
use mileage_core.Process.Threads.{
  calls_of, Grows, Grows-call, Reached, meanwhile-Reached, call-Reached, Reached-again,
}
use mileage_core.Process.Turns.{
  turns_given, ShuttingDown, Counted, launched-Counted, call-Counted, sync_logger-ShuttingDown,
}

-- The calls before the connection to MySQL, before its ping, before the ping of Redis, and before the
-- server, the latest first.
abbrev pub before_connect : Trace
before_connect = (main_thread, new_production) ∷ []

abbrev pub before_ping_db : Config → Trace
before_ping_db cfg =
    (main_thread, set_max_idle_conns 10)
    ∷ (main_thread, set_max_open_conns 25)
    ∷ (main_thread, connect (dsn cfg.db))
    ∷ before_connect

abbrev pub before_ping_redis : Config → Trace
before_ping_redis cfg =
    (main_thread, new_client cfg.redis.addr)
    ∷ (main_thread, log_line info_level "connected to MySQL" none)
    ∷ (main_thread, ping_db)
    ∷ before_ping_db cfg

abbrev pub before_server : Config → Trace
before_server cfg =
    (main_thread, log_line info_level "connected to Redis" none)
    ∷ (main_thread, ping_redis 5)
    ∷ before_ping_redis cfg

-- The calls of main until Start returns.
abbrev pub until_stop : Config → List Call
until_stop cfg =
    start (":" <> cfg.port)
    ∷ log_line info_level "starting server" (some (":" <> cfg.port))
    ∷ calls_of main_thread (before_server cfg)

-- The line for an error that Start has returned.
abbrev pub stop_line : Option String → List Call
stop_line none = []
stop_line (some e) = log_line info_level "server stopped" (some e) ∷ []

module _ (h : Host) where
  -- What main has called, with Start's answer at the point `at` of the trace, and what the goroutine
  -- has called.
  abbrev pub Served : Config → Trace → Type 0
  Served cfg t =
      (at : Trace) × (calls_of main_thread at ≡ until_stop cfg)
      × Grows at t
      × (calls_of main_thread t
          ≡ sync_logger ∷ close_db ∷ close_redis ∷ stop_line (h.error (start (":" <> cfg.port)) at)
            ++ until_stop cfg)
      × (new : Trace) × (t ≡ (main_thread, sync_logger) ∷ new ++ before_server cfg)
      × ShuttingDown h (turns_given h (before_server cfg) new) t

  stopped-Counted :
      (e : Option String) (base : Trace) (s : Goroutine × Trace)
      → Counted h base s
      → Counted h base (stopped h e s)
  stopped-Counted none base s n = n
  stopped-Counted (some e) base s n = call-Counted h base _ s n

  stopped-Reached :
      (e : Option String) (t : Trace) (mine : List Call) (s : Goroutine × Trace)
      → Reached h t mine s
      → Reached h t (stop_line e ++ mine) (stopped h e s)
  stopped-Reached none t mine s r = r
  stopped-Reached (some e) t mine s r = call-Reached h t mine _ s r

  pub started-Reached :
      (cfg : Config)
      → Reached h (before_server cfg) (until_stop cfg) (
          call h (start (":" <> cfg.port)) (
            call h
              (log_line info_level "starting server" (some (":" <> cfg.port)))
              (meanwhile h (launched, before_server cfg))))
  started-Reached cfg = call-Reached h _ _ _ _ (
      call-Reached h _ _ _ _ (
        meanwhile-Reached h _ _ _ (record { progress = refl; by_main = refl; grown = ([], refl) })))

  pub started-Counted :
      (cfg : Config)
      → Counted h (before_server cfg) (
          call h (start (":" <> cfg.port)) (
            call h
              (log_line info_level "starting server" (some (":" <> cfg.port)))
              (meanwhile h (launched, before_server cfg))))
  started-Counted cfg = call-Counted h _ _ _ (call-Counted h _ _ _ (launched-Counted h _))

  -- From the point at which Start has returned to the end of main.
  pub deferred-Served :
      (cfg : Config) (s : Goroutine × Trace)
      → Reached h (before_server cfg) (until_stop cfg) s
      → Counted h (before_server cfg) s
      → Served cfg (deferred h (stopped h (h.error (start (":" <> cfg.port)) s.1) s))
  deferred-Served cfg s r n =
      let error = h.error (start (":" <> cfg.port)) s.1 in
      let last = call-Reached h s.1 _ close_db _ (
        call-Reached h s.1 _ close_redis _
          (stopped-Reached error s.1 (until_stop cfg) s (Reached-again h _ _ s r))) in
      let (new, is, shutting) = sync_logger-ShuttingDown h _ _ last.progress (
        call-Counted h _ close_db _
          (call-Counted h _ close_redis _ (stopped-Counted error _ s n))) in
      (
        s.1,
        r.by_main,
        Grows-call _ last.grown,
        ap (λ (cs : List Call). sync_logger ∷ cs) last.by_main,
        new,
        ap (λ (t : Trace). (main_thread, sync_logger) ∷ t) is,
        shutting,
      )
