-- ===== src/Usecase/Auth.antt =====
-- internal/usecase/auth.go: signing up and logging in. Log lines are left out.
pub mod Login
pub mod Roundtrip
pub mod Signup
pub mod Nonce
use mileage_core.Base.{String, Option, none, some, ◌/◌, ◌^◌, if◌then◌else◌}
use mileage_core.Base.Int.{ℤ, pos, negsuc, ◌+ℤ◌}
use mileage_core.Errors.{Error, message, driver, wrapped}
use mileage_core.Effect.{Action, pure, fail, call, with_error, ◌>>=◌, ◌>>◌}
use mileage_core.Domain.User.{User}
use mileage_core.Platform.{Platform}
use mileage_core.Mysql.Tx.{Context, expect}
use mileage_core.Mysql.MileageRepository.{create_account}
use mileage_core.Mysql.UserRepository.{Identity, Claims, find_by_email, create}

-- config.JWTConfig, with the expiry in nanoseconds.
pub record JwtConfig : Type 0 where
  pub secret : String
  pub expiry_time : ℤ

-- SignupInput, LoginInput
pub record Credentials : Type 0 where
  pub email : String
  pub password : String

-- AuthOutput
pub record AuthOutput : Type 0 where
  pub user_id : String
  pub token : String

-- Time.Unix: nanoseconds in seconds, rounded down.
abbrev pub unix : ℤ → ℤ
unix (pos n) = pos (n / 1000000000)
unix (negsuc n) = negsuc (n / 1000000000)

-- The errors of a duplicate email and of a failed login.
abbrev pub email_registered : Error
email_registered = message "email already registered"

abbrev pub invalid_credentials : Error
invalid_credentials = message "invalid credentials"

module _ (p : Platform) (i : Identity p) (config : JwtConfig) where
  open p use {World, Tx, new_ulid}
  open i use {generate_from_password, matches, now, signed_string}

  -- generateToken. The clock is read twice.
  unfoldable pub generate_token : String → Action World String
  generate_token user_id = do
    expiring ← call now
    issued ← call now
    expect driver (
        signed_string config.secret (record {
          sub = user_id;
          exp = unix (expiring +ℤ config.expiry_time);
          iat = unix issued;
        }))

  -- Signup after the check for the email: the user and its account are two statements with no
  -- transaction around them.
  unfoldable pub register : Context Tx → Credentials → Action World AuthOutput
  register ctx input = do
    hash ← λ w.
        let (r, w') = generate_from_password input.password w in
        expect (λ d. wrapped "hash password" (driver d)) r w'
    id ← call new_ulid
    with_error (wrapped "create user") (
        create p i ctx (record {
          id = id;
          email = input.email;
          password_hash = hash;
          created_at = 0;
          updated_at = 0;
        }))
    with_error (wrapped "create mileage account") (create_account p ctx id)
    token ← with_error (wrapped "generate token") (generate_token id)
    pure (record { user_id = id; token = token })

  abbrev pub unless_registered : Context Tx → Credentials → Option User → Action World AuthOutput
  unless_registered ctx input (some u) = fail email_registered
  unless_registered ctx input none = register ctx input

  -- Signup
  unfoldable pub signup : Context Tx → Credentials → Action World AuthOutput
  signup ctx input = do
    existing ← with_error (wrapped "find user") (find_by_email p i ctx input.email)
    unless_registered ctx input existing

  -- Login after the lookup: no user and a wrong password are the same error.
  unfoldable pub authenticate : Credentials → Option User → Action World AuthOutput
  authenticate input none = fail invalid_credentials
  authenticate input (some u) =
      let answer = (do
        token ← with_error (wrapped "generate token") (generate_token u.id)
        pure (record { user_id = u.id; token = token })) in
      if matches u.password_hash input.password then answer else fail invalid_credentials

  -- Login
  unfoldable pub login : Context Tx → Credentials → Action World AuthOutput
  login ctx input = do
    found ← with_error (wrapped "find user") (find_by_email p i ctx input.email)
    authenticate input found
