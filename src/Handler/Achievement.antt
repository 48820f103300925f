-- ===== src/Handler/Achievement.antt =====
-- internal/server/handler/achievement.go
pub mod Status
use text.Mathlib.Text.{◌==◌ as str_eq}
use mileage_core.Base.{String, Option, none, some, [], if◌then◌else◌}
use mileage_core.Effect.{Outcome, returns, fails, panics, Action}
use mileage_core.Platform.{Platform}
use mileage_core.Mysql.Tx.{background}
use mileage_core.Usecase.Achievement.{AchievementInput, record_event}
use mileage_core.Handler.{Request, Response, status_text, get_user_id, bad_request, internal_error}

-- achievementRequest
pub record AchievementRequest : Type 0 where
  pub action_type : String
  pub idempotency_key : String

-- The input of the usecase.
abbrev pub event_input : Request → AchievementRequest → AchievementInput
event_input c req = record {
  user_id = get_user_id c;
  action_type = req.action_type;
  idempotency_key = req.idempotency_key;
}

abbrev pub event_answer : {W : Type 0} → Request → Outcome W (Unit {0}) → Outcome W Response
event_answer c (returns u w) =
    returns (record { status = 201; body = status_text "ok"; counted = []; headers = [] }) w
event_answer c (fails e w) = returns (internal_error c "failed to record achievement") w
event_answer c (panics w) = panics w

module _ (p : Platform) where
  open p use {World}

  -- Create, with the result of c.Bind.
  unfoldable pub handle_event : Request → Option AchievementRequest → Action World Response
  handle_event c none w = returns (bad_request c "invalid request body") w
  handle_event c (some req) w =
      if str_eq req.action_type ""
      then returns (bad_request c "action_type is required") w
      else event_answer c (record_event p background (event_input c req) w)
