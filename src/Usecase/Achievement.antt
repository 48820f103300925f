-- ===== src/Usecase/Achievement.antt =====
-- internal/usecase/achievement.go: recording an event of a user. Log lines are left out.
pub mod Log
use mileage_core.Base.{String}
use mileage_core.Errors.{wrapped}
use mileage_core.Effect.{Action, call, with_error, ◌>>=◌}
use mileage_core.Domain.Achievement.{AchievementEvent}
use mileage_core.Platform.{Platform}
use mileage_core.Mysql.Tx.{Context}
use mileage_core.Mysql.AchievementRepository.{create_event}

-- AchievementInput
pub record AchievementInput : Type 0 where
  pub user_id : String
  pub action_type : String
  pub idempotency_key : String

-- The event that Execute builds; created_at stays the zero time.
abbrev pub event_of : AchievementInput → String → AchievementEvent
event_of input id = record {
  id = id;
  user_id = input.user_id;
  action_type = input.action_type;
  idempotency_key = input.idempotency_key;
  created_at = 0;
}

module _ (p : Platform) where
  open p use {World, Tx, new_ulid}

  -- Execute
  unfoldable pub record_event : Context Tx → AchievementInput → Action World (Unit {0})
  record_event ctx input = do
    id ← call new_ulid
    with_error (wrapped "create achievement event") (create_event p ctx (event_of input id))
