-- ===== src/Usecase/Auth/Roundtrip.antt =====
-- A login with the credentials of a signup.
use mileage_core.Base.{String, true, ◌≡◌, ◌≢◌, ap, ◌∙◌, inl, inr, Option, none, some, [], ◌∷◌}
use mileage_core.Errors.{Error, wrapped, driver}
use mileage_core.Effect.{
  follow, change_error, pure, Ensures, returned, failed, Ensures-follow, Ensures-weaken,
  Ensures-change_error,
}
use mileage_core.Platform.{Platform, Reply, done, refused, on_db, varchar}
use mileage_core.Domain.User.{User}
use mileage_core.Mysql.Tx.{background, expect}
use mileage_core.Mysql.MileageRepository.{insert_account_sql, create_account}
use mileage_core.Mysql.Contract.{On}
use mileage_core.Mysql.Effects.{row_or_nil_lem, executed_lem}
use mileage_core.Mysql.UserRepository.{Identity, UserRow, user_of, create, find_by_email}
use mileage_core.Usecase.Auth.{
  JwtConfig, Credentials, AuthOutput, invalid_credentials, generate_token, register,
  unless_registered, signup, login,
}
use mileage_core.Usecase.Auth.Login.{
  Stays, Directory, On-always, Knows, generate_token_lem, looked_up, NotKnown, LoginFailed,
  login_lem,
}

module _ (p : Platform) (i : Identity p) (d : Directory p i) (config : JwtConfig) where
  open p use {World}
  open i use {matches, now, signed_string, get_user_row, generate_from_password}
  open d use {users}

  hash_lem :
      (password : String) (w : World) (r : Reply String)
      → On r (λ h. matches h password ≡ true) (λ e. Unit {0})
      → Ensures
          (λ h w'. matches h password ≡ true)
          (λ e w'. Unit {0})
          (expect (λ e. wrapped "hash password" (driver e)) r w)
  hash_lem password w (done h) good = returned good
  hash_lem password w (refused e) good = failed tt

  -- The user that Create has stored.
  abbrev pub Stored : World → String → String → String → Type 0
  Stored w email id hash =
      (row : UserRow) × (users w email ≡ some row) × (row.id ≡ id) × (row.password_hash ≡ hash)

  Stored-Knows :
      (w w' : World) (input : Credentials) (id hash : String)
      → Stays users w w'
      → matches hash input.password ≡ true
      → Stored w input.email id hash
      → Knows p i d config w' input id
  Stored-Knows w w' input id hash stays good (row, stored, named, hashed) =
      (row, stays _ row stored, named, ap (λ (h : String). matches h input.password) hashed ∙ good)

  token_step :
      (input : Credentials) (id : String) (w : World)
      → Knows p i d config w input id
      → Ensures
          (λ (out : AuthOutput) w'. Knows p i d config w' input out.user_id)
          (λ e w'. Unit {0})
          (follow
            (change_error (wrapped "generate token") (generate_token p i config id w))
            (λ token. pure (record { user_id = id; token = token })))
  token_step input id w (row, stored, named, known) =
      Ensures-follow {Q = λ e w'. Unit {0}}
        (Ensures-change_error (wrapped "generate token") (generate_token_lem p i d config id w)
          (λ e w' k. tt))
        _ (λ token w' k. returned (row, k.0 _ row stored, named, known)) (λ e w' k. tt)

  account_step :
      (v : World) (input : Credentials) (id hash : String)
      → matches hash input.password ≡ true
      → Stored v input.email id hash
      → Ensures
          (λ u w'. Unit {0} × Knows p i d config w' input id)
          (λ e w'. Unit {0})
          (create_account p background id v)
  unfolding create_account
  account_step v input id hash good stored =
      let (r, v') = p.exec_context on_db insert_account_sql (varchar id ∷ []) v in
      let known : Knows p i d config v' input id =
        Stored-Knows v v' input id hash (d.account_law id v) good stored in
      executed_lem (λ e. wrapped "create account" (driver e)) (λ w'. Knows p i d config w' input id)
        (λ w'. Unit {0}) r v' tt (On-always r known)

  register_lem :
      (input : Credentials) (w : World)
      → Ensures
          (λ (out : AuthOutput) w'. Knows p i d config w' input out.user_id)
          (λ e w'. Unit {0})
          (register p i config background input w)
  unfolding register create
  register_lem input w =
      Ensures-follow {Q = λ e w'. Unit {0}}
        (hash_lem input.password _ _ (d.hash_law input.password w)) _
        (λ hash v good.
          let (id, v₁) = p.new_ulid v in
          Ensures-follow {Q = λ e w'. Unit {0}}
            (Ensures-change_error (wrapped "create user")
              (executed_lem (λ e. wrapped "insert user" (driver e))
                (λ w'. Stored w' input.email id hash) (λ w'. Unit {0}) _ _ tt
                (d.insert_law id input.email hash v₁))
              (λ e w' k. tt))
            _
            (λ u v₂ stored.
              Ensures-follow {Q = λ e w'. Unit {0}}
                (Ensures-change_error (wrapped "create mileage account")
                  (account_step v₂ input id hash good stored.1) (λ e w' k. tt))
                _ (λ u' v₃ known. token_step input id v₃ known.1) (λ e w' k. tt))
            (λ e w' k. tt))
        (λ e w' k. tt)

  unless_registered_lem :
      (input : Credentials) (w : World) (found : Option User)
      → Ensures
          (λ (out : AuthOutput) w'. Knows p i d config w' input out.user_id)
          (λ e w'. Unit {0})
          (unless_registered p i config background input found w)
  unless_registered_lem input w none = register_lem input w
  unless_registered_lem input w (some u) = failed tt

  signup_lem :
      (input : Credentials) (w : World)
      → Ensures
          (λ (out : AuthOutput) w'. Knows p i d config w' input out.user_id)
          (λ e w'. Unit {0})
          (signup p i config background input w)
  unfolding signup find_by_email
  signup_lem input w =
      let (stays, shown) = d.find_law input.email w in
      let v : World = looked_up p i d config input w in
      Ensures-follow {Q = λ e w'. Unit {0}}
        (Ensures-change_error (wrapped "find user")
          (row_or_nil_lem user_of "find user by email" (λ row w'. users v input.email ≡ some row)
            (λ w'. users v input.email ≡ none) (λ w'. Unit {0}) _ _ tt shown)
          (λ e w' k. tt))
        (unless_registered p i config background input)
        (λ found w' k. unless_registered_lem input w' found) (λ e w' k. k)

  -- A login with the credentials of a signup that succeeded, at any later time at which no
  -- user's row has been changed or removed, gives the user that was created, or fails for another
  -- reason than invalid credentials.
  pub login-signup :
      (input : Credentials) (w : World)
      → Ensures
          (λ out w'.
            (v : World)
            → Stays users w' v
            → Ensures
                (λ again v'. again.user_id ≡ out.user_id)
                (λ e v'. e ≢ invalid_credentials)
                (login p i config background input v))
          (λ e w'. Unit {0})
          (signup p i config background input w)
  login-signup input w =
      Ensures-weaken (signup_lem input w)
        (λ out w' (row, stored, named, right) v stays.
          let at_lookup : users (looked_up p i d config input v) input.email ≡ some row =
            (d.find_law input.email v).0 _ row (stays _ row stored) in
          Ensures-weaken (login_lem p i d config input v)
            (λ again v' k. same_user _ _ _ _ _ at_lookup named k.0)
            (λ e v' k. other_reason _ input row e at_lookup right k))
        (λ e w' k. tt)
    where
      same_user :
          (v : World) (input : Credentials) (row : UserRow) (id again : String)
          → users v input.email ≡ some row
          → row.id ≡ id
          → Knows p i d config v input again
          → again ≡ id
      same_user v input row id again at named (other, at', named', right) = cc

      contradicts :
          (v : World) (input : Credentials) (row : UserRow)
          → users v input.email ≡ some row
          → matches row.password_hash input.password ≡ true
          → NotKnown p i d config v input
          → ⊥
      contradicts v input row at right (inl absent) = cc
      contradicts v input row at right (inr (other, at', wrong)) = cc

      other_reason :
          (v : World) (input : Credentials) (row : UserRow) (e : Error)
          → users v input.email ≡ some row
          → matches row.password_hash input.password ≡ true
          → LoginFailed p i d config input v e
          → e ≢ invalid_credentials
      other_reason v input row e at right (inl (it, unknown)) is =
          contradicts v input row at right unknown
      other_reason v input row e at right (inr (cause, inl it)) is = cc
      other_reason v input row e at right (inr (cause, inr it)) is = cc
