-- ===== src/Tests/Process.antt =====
-- Runs of the process, with the environment unset.
use mileage_core.Base.{ℕ, ◌≡◌, refl, none, some, ◌∷◌}
use mileage_core.Middleware.{info_level}
use mileage_core.Config.{Environment, load, get_env}
use mileage_core.Process.{
  sync_logger, log_line, close_db, ping_redis, close_redis, notify, start, close_server,
  main_thread, shutdown_thread, Trace, Host, exited, finished, new_db, new_cache, shut_down,
  take_turns, serve_requests, main,
}
use mileage_core.Process.Serving.{before_server}
use mileage_core.Process.Lifecycle.{Ended, main_lem}

abbrev unset : Environment
unset name = ""

-- Whether the server has been started.
abbrev is_started : Trace → ℕ
is_started ((main_thread, start addr) ∷ t) = 3
is_started _ = 0

-- Everything works; once the server runs, the goroutine makes its calls, with a signal.
abbrev signalled : Host
signalled = record {
  error = λ c t. elim c [ start addr ↦ some "http: Server closed" | _ ↦ none ];
  turns = is_started;
}

-- No Redis answers.
abbrev no_redis : Host
no_redis = record {
  error = λ c t. elim c [ ping_redis n ↦ some "refused" | _ ↦ none ];
  turns = λ t. 0;
}

-- The process exits with the database open.
redis_missing : (main no_redis unset).0 ≡ exited 1
unfolding main
redis_missing = refl

abbrev closing : Trace
closing =
    (main_thread, sync_logger)
    ∷ (main_thread, close_db)
    ∷ (main_thread, close_redis)
    ∷ (main_thread, log_line info_level "server stopped" (some "http: Server closed"))
    ∷ (shutdown_thread, close_server)
    ∷ (shutdown_thread, log_line info_level "shutting down server..." none)
    ∷ (shutdown_thread, notify)
    ∷ (main_thread, start ":8080")
    ∷ (main_thread, log_line info_level "starting server" (some ":8080"))
    ∷ before_server (load unset)

-- The goroutine's calls stand between the start of the server and the end of main.
signal_ends : main signalled unset ≡ (finished, closing)
unfolding main serve_requests new_db new_cache shut_down take_turns load get_env
signal_ends = refl

main_lem_example : Ended signalled (load unset) (main signalled unset)
main_lem_example = main_lem signalled unset
