-- ===== src/Domain/User.antt =====
-- internal/domain/user/user.go
use mileage_core.Base.{String}
use mileage_core.Domain.{Time}

-- User
pub record User : Type 0 where
  pub id : String
  pub email : String
  pub password_hash : String
  pub created_at : Time
  pub updated_at : Time
