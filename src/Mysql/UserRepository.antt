-- ===== src/Mysql/UserRepository.antt =====
-- internal/infra/mysql/user_repository.go, over the outside code that the login needs beside the
-- platform: rows of users, bcrypt, the clock and the JWT library.
use mileage_core.Base.{String, Bool, Option, List, [], ◌∷◌}
use mileage_core.Base.Int.{ℤ}
use mileage_core.Errors.{DriverError, driver, wrapped}
use mileage_core.Effect.{Action}
use mileage_core.Domain.{Time}
use mileage_core.Domain.User.{User}
use mileage_core.Platform.{Platform, Reply, Querier, SqlValue, varchar}
use mileage_core.Mysql.Rows.{time_or_zero}
use mileage_core.Mysql.Tx.{Context, get_querier, executed}
use mileage_core.Mysql.MileageRepository.{row_or_nil}

-- userRow
pub record UserRow : Type 0 where
  pub id : String
  pub email : String
  pub password_hash : String
  pub created_at : Option Time
  pub updated_at : Option Time

-- The claims that generateToken signs.
pub record Claims : Type 0 where
  pub sub : String
  pub exp : ℤ
  pub iat : ℤ

pub record Identity (p : Platform) : Type 0 where
  -- GetContext into a userRow
  pub get_user_row : Querier p.Tx → String → List SqlValue → p.World → Reply UserRow × p.World
  -- bcrypt.GenerateFromPassword at the default cost, with its random salt, and whether
  -- bcrypt.CompareHashAndPassword returns nil for a hash and a password
  pub generate_from_password : String → p.World → Reply String × p.World
  pub matches : String → String → Bool
  -- time.Now() in nanoseconds since 1970
  pub now : p.World → ℤ × p.World
  -- SignedString of HS256 claims under a secret
  pub signed_string : String → Claims → Reply String
  -- The text of an error that comes from outside
  pub driver_text : DriverError → String

-- userRow.toDomain
abbrev pub user_of : UserRow → User
user_of r = record {
  id = r.id;
  email = r.email;
  password_hash = r.password_hash;
  created_at = time_or_zero r.created_at;
  updated_at = time_or_zero r.updated_at;
}

abbrev pub insert_user_sql : String
insert_user_sql = "INSERT INTO users (id, email, password_hash) VALUES (?, ?, ?)"

abbrev pub find_by_email_sql : String
find_by_email_sql =
    "SELECT id, email, password_hash, created_at, updated_at FROM users WHERE email = ?"

abbrev pub find_by_id_sql : String
find_by_id_sql = "SELECT id, email, password_hash, created_at, updated_at FROM users WHERE id = ?"

module _ (p : Platform) (i : Identity p) where
  open p use {World, Tx, exec_context}
  open i use {get_user_row}

  -- Create
  unfoldable pub create : Context Tx → User → Action World (Unit {0})
  create ctx u w =
      let (r, w') =
        exec_context (get_querier ctx) insert_user_sql
          (varchar u.id ∷ varchar u.email ∷ varchar u.password_hash ∷ []) w in
      executed (λ d. wrapped "insert user" (driver d)) r w'

  -- FindByEmail
  unfoldable pub find_by_email : Context Tx → String → Action World (Option User)
  find_by_email ctx email w =
      let (r, w') = get_user_row (get_querier ctx) find_by_email_sql (varchar email ∷ []) w in
      row_or_nil user_of "find user by email" r w'

  -- FindByID
  unfoldable pub find_by_id : Context Tx → String → Action World (Option User)
  find_by_id ctx id w =
      let (r, w') = get_user_row (get_querier ctx) find_by_id_sql (varchar id ∷ []) w in
      row_or_nil user_of "find user by id" r w'
