-- ===== src/Mysql/AchievementRepository.antt =====
-- internal/infra/mysql/achievement_repository.go
use mileage_core.Base.{String, [], ◌∷◌, List}
use mileage_core.Errors.{driver, wrapped}
use mileage_core.Effect.{Action}
use mileage_core.Domain.Achievement.{AchievementEvent}
use mileage_core.Platform.{Platform, SqlValue, varchar}
use mileage_core.Mysql.Tx.{Context, get_querier, executed}

abbrev pub insert_event_sql : String
insert_event_sql =
    "INSERT INTO achievement_events (id, user_id, action_type, idempotency_key) VALUES (?, ?, ?, ?)"

-- The arguments of the INSERT.
abbrev pub event_arguments : AchievementEvent → List SqlValue
event_arguments e =
    varchar e.id ∷ varchar e.user_id ∷ varchar e.action_type ∷ varchar e.idempotency_key ∷ []

module _ (p : Platform) where
  open p use {World, Tx, exec_context}

  -- Create
  unfoldable pub create_event : Context Tx → AchievementEvent → Action World (Unit {0})
  create_event ctx event w =
      let (r, w') = exec_context (get_querier ctx) insert_event_sql (event_arguments event) w in
      executed (λ d. wrapped "insert achievement event" (driver d)) r w'
