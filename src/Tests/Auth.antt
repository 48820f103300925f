-- ===== src/Tests/Auth.antt =====
-- Signing up and logging in on the memory platform, with a hash that shows the password.
use text.Mathlib.Text.{◌==◌ as str_eq}
use text.Mathlib.TextPositions.{eq_refl}
use mileage_core.Base.{String, ◌<>◌, ◌≡◌, ◌≢◌, refl, Option, none, some, List, [], ◌∷◌}
use mileage_core.Base.Int.{pos}
use mileage_core.Errors.{no_rows, other_error}
use mileage_core.Effect.{Outcome, returns, Ensures}
use mileage_core.Platform.{Reply, done, refused, SqlValue, varchar}
use mileage_core.Mysql.Tx.{background}
use mileage_core.Mysql.Rows.{AccountRow}
use mileage_core.Mysql.Contract.{On}
use mileage_core.Mysql.MileageRepository.{create_account}
use mileage_core.Mysql.UserRepository.{Identity, UserRow, find_by_email, create}
use mileage_core.Usecase.Auth.{
  JwtConfig, Credentials, AuthOutput, invalid_credentials, signup, login, register, generate_token,
}
use mileage_core.Usecase.Auth.Login.{Directory, Stays, LoggedIn, LoginFailed, looked_up, login_lem}
use mileage_core.Usecase.Auth.Roundtrip.{login-signup}
use mileage_core.Handler.{Request}
use mileage_core.Handler.Auth.{handle_login}
use mileage_core.Handler.Auth.Status.{LoginTells, handle_login_lem}
use mileage_core.Tests.Memory.{Memory, memory, exec, found, insert_user, insert_account, next_id}
use mileage_core.Tests.Posting.{start}

unfoldable pub user_reply : List SqlValue → Memory → Reply UserRow × Memory
user_reply (varchar email ∷ []) m = (found (m.users email), m)
user_reply _ m = (refused (other_error "syntax"), m)

abbrev pub identity : Identity memory
identity = record {
  get_user_row = λ q sql arguments m. user_reply arguments m;
  generate_from_password = λ password m. (done ("hash of " <> password), m);
  matches = λ hash password. str_eq hash ("hash of " <> password);
  now = λ m. (pos 0, m);
  signed_string = λ secret claims. done ("token of " <> claims.sub);
  driver_text = λ d. "";
}

found_user : (o : Option UserRow) → On (found o) (λ row. o ≡ some row) (λ d. d ≡ no_rows → o ≡ none)
found_user none = λ _. refl
found_user (some row) = refl

pub find_law :
    (email : String) (m : Memory)
    → let (r, m') = user_reply (varchar email ∷ []) m in
      Stays (λ (x : Memory). x.users) m m'
      × On r (λ row. m'.users email ≡ some row) (λ d. d ≡ no_rows → m'.users email ≡ none)
unfolding user_reply
find_law email m = ((λ e row h. h), found_user (m.users email))

insert_user_lem :
    (row : UserRow) (o : Option UserRow) (m : Memory)
    → let (r, m') = insert_user row o m in
      On r
        (λ res.
          (stored : UserRow) × (m'.users row.email ≡ some stored)
          × (stored.id ≡ row.id)
          × (stored.password_hash ≡ row.password_hash))
        (λ d. Unit {0})
unfolding insert_user
insert_user_lem row none m = (row, rw (eq_refl row.email) refl, refl, refl)
insert_user_lem row (some taken) m = tt

pub insert_law :
    (id email hash : String) (m : Memory)
    → let (r, m') = exec (varchar id ∷ varchar email ∷ varchar hash ∷ []) m in
      On r
        (λ res.
          (row : UserRow) × (m'.users email ≡ some row)
          × (row.id ≡ id)
          × (row.password_hash ≡ hash))
        (λ d. Unit {0})
unfolding exec
insert_law id email hash m = insert_user_lem _ (m.users email) m

insert_account-Stays :
    (id : String) (o : Option AccountRow) (m : Memory)
    → Stays (λ (x : Memory). x.users) m (insert_account id o m).1
unfolding insert_account
insert_account-Stays id none m e row h = h
insert_account-Stays id (some taken) m e row h = h

pub account_law :
    (id : String) (m : Memory) → Stays (λ (x : Memory). x.users) m (exec (varchar id ∷ []) m).1
unfolding exec
account_law id m = insert_account-Stays id (m.tables.accounts id) m

abbrev pub directory : Directory memory identity
directory = record {
  users = λ (m : Memory). m.users;
  find_law = find_law;
  insert_law = insert_law;
  account_law = account_law;
  now_law = λ m e row h. h;
  hash_law = λ password m. eq_refl ("hash of " <> password);
}

abbrev pub config : JwtConfig
config = record { secret = "secret"; expiry_time = pos 3600000000000 }

abbrev pub alice : Credentials
alice = record { email = "alice@example.com"; password = "long password" }

pub sign_up : Credentials → Memory → Outcome Memory AuthOutput
unfolding signup register create create_account find_by_email generate_token user_reply exec
    insert_user insert_account next_id
sign_up input m = signup memory identity config background input m

abbrev output : Outcome Memory AuthOutput → Option AuthOutput
output (returns out m) = some out
output _ = none

abbrev pub after : Outcome Memory AuthOutput → Memory
after (returns out m) = m
after _ = start

first_signup :
    output (sign_up alice start) ≡ some (record { user_id = "01A"; token = "token of 01A" })
unfolding sign_up
first_signup = refl

-- The email is taken.
second_signup : output (sign_up alice (after (sign_up alice start))) ≡ none
unfolding sign_up
second_signup = refl

abbrev empty_request : Request
empty_request = record {
  user_id = none;
  request_id = none;
  header = λ name. "";
  query_param = λ name. "";
  method = "POST";
  path = "/";
  route = "/";
  content = "";
}

login_lem_example :
    Ensures
      (λ out m.
        LoggedIn memory identity directory config alice
          (looked_up memory identity directory config alice (after (sign_up alice start)))
          out)
      (λ e m.
        LoginFailed memory identity directory config alice
          (looked_up memory identity directory config alice (after (sign_up alice start)))
          e)
      (login memory identity config background alice (after (sign_up alice start)))
login_lem_example = login_lem memory identity directory config alice (after (sign_up alice start))

login-signup_example :
    Ensures
      (λ (out : AuthOutput) (m : Memory).
        (v : Memory)
        → Stays (λ (x : Memory). x.users) m v
        → Ensures
            (λ (again : AuthOutput) v'. again.user_id ≡ out.user_id)
            (λ e v'. e ≢ invalid_credentials)
            (login memory identity config background alice v))
      (λ e m. Unit {0})
      (signup memory identity config background alice start)
login-signup_example = login-signup memory identity directory config alice start

handle_login_lem_example :
    Ensures
      (LoginTells memory identity directory config empty_request alice
        (looked_up memory identity directory config alice (after (sign_up alice start))))
      (λ e m. ⊥)
      (handle_login memory identity config empty_request (some alice) (after (sign_up alice start)))
handle_login_lem_example =
    handle_login_lem memory identity directory config empty_request alice
      (after (sign_up alice start))
