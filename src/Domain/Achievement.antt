-- ===== src/Domain/Achievement.antt =====
-- internal/domain/achievement/event.go
use mileage_core.Base.{String}
use mileage_core.Domain.{Time}

-- AchievementEvent
pub record AchievementEvent : Type 0 where
  pub id : String
  pub user_id : String
  pub action_type : String
  pub idempotency_key : String
  pub created_at : Time
