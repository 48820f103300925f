-- ===== src/Usecase/Auth/Login.antt =====
-- What a login tells of the users.
use mileage_core.Base.{
  String, true, false, ◌≡◌, refl, ◌⊎◌, inl, inr, Option, none, some, [], ◌∷◌, Bool-cases,
}
use mileage_core.Errors.{no_rows, Error, wrapped, driver}
use mileage_core.Effect.{Ensures, returned, failed, Ensures-follow, Ensures-change_error}
use mileage_core.Platform.{Platform, Reply, done, refused, on_db, varchar}
use mileage_core.Domain.User.{User}
use mileage_core.Mysql.Tx.{background, expect}
use mileage_core.Mysql.MileageRepository.{insert_account_sql}
use mileage_core.Mysql.Contract.{On}
use mileage_core.Mysql.Effects.{Found, row_or_nil_lem}
use mileage_core.Mysql.UserRepository.{
  Identity, UserRow, Claims, user_of, insert_user_sql, find_by_email_sql, find_by_email,
}
use mileage_core.Base.Int.{◌+ℤ◌}
use mileage_core.Usecase.Auth.{
  unix, JwtConfig, Credentials, AuthOutput, invalid_credentials, generate_token, authenticate,
  login,
}

-- No row of a user is changed or removed: no statement of the service does that.
abbrev pub Stays : {W : Type 0} → (W → String → Option UserRow) → W → W → Type 0
Stays users w w' = (e : String) (row : UserRow) → users w e ≡ some row → users w' e ≡ some row

-- What the signup and the login rely on of the users table and of bcrypt.
pub record Directory (p : Platform) (i : Identity p) : Type 0 where
  -- The committed row of an email.
  pub users : p.World → String → Option UserRow
  pub find_law :
      (email : String) (w : p.World)
      → let (r, w') = i.get_user_row on_db find_by_email_sql (varchar email ∷ []) w in
        Stays users w w'
        × On r (λ row. users w' email ≡ some row) (λ d. d ≡ no_rows → users w' email ≡ none)
  pub insert_law :
      (id email hash : String) (w : p.World)
      → let (r, w') =
          p.exec_context on_db insert_user_sql (varchar id ∷ varchar email ∷ varchar hash ∷ []) w in
        On r
          (λ res.
            (row : UserRow) × (users w' email ≡ some row)
            × (row.id ≡ id)
            × (row.password_hash ≡ hash))
          (λ d. Unit {0})
  pub account_law :
      (id : String) (w : p.World)
      → Stays users w (p.exec_context on_db insert_account_sql (varchar id ∷ []) w).1
  pub now_law : (w : p.World) → Stays users w (i.now w).1
  pub hash_law :
      (password : String) (w : p.World)
      → On
          (i.generate_from_password password w).0
          (λ h. i.matches h password ≡ true)
          (λ d. Unit {0})

pub On-always : {A P : Type 0} (r : Reply A) → P → On r (λ a. P) (λ d. Unit {0})
On-always (done a) h = h
On-always (refused d) h = tt

module _ (p : Platform) (i : Identity p) (d : Directory p i) (config : JwtConfig) where
  open p use {World}
  open i use {matches, now, signed_string, get_user_row, generate_from_password}
  open d use {users}

  -- The user of these credentials.
  abbrev pub Knows : World → Credentials → String → Type 0
  Knows w input id =
      (row : UserRow) × (users w input.email ≡ some row)
      × (row.id ≡ id)
      × (matches row.password_hash input.password ≡ true)

  -- A token that is signed for a user, and expires when the configured time has passed since the
  -- clock was read in the world w.
  abbrev pub IsTokenOf : World → String → String → Type 0
  IsTokenOf w id token =
      (claims : Claims) × (claims.sub ≡ id)
      × (claims.exp ≡ unix ((now w).0 +ℤ config.expiry_time))
      × (signed_string config.secret claims ≡ done token)

  signed_lem :
      (id : String) (claims : Claims) (w w' : World) (r : Reply String)
      → claims.sub ≡ id
      → claims.exp ≡ unix ((now w).0 +ℤ config.expiry_time)
      → signed_string config.secret claims ≡ r
      → Stays users w w'
      → Ensures
          (λ token v. Stays users w v × IsTokenOf w id token)
          (λ e v. Unit {0})
          (expect driver r w')
  signed_lem id claims w w' (done token) named lives is stays =
      returned (stays, (claims, named, lives, is))
  signed_lem id claims w w' (refused e) named lives is stays = failed tt

  pub generate_token_lem :
      (id : String) (w : World)
      → Ensures
          (λ token w'. Stays users w w' × IsTokenOf w id token)
          (λ e w'. Unit {0})
          (generate_token p i config id w)
  unfolding generate_token
  generate_token_lem id w =
      signed_lem id _ w _ _ refl refl refl
        (λ e row h. d.now_law (now w).1 e row (d.now_law w e row h))

  -- The users as the lookup of a login leaves them.
  abbrev pub looked_up : Credentials → World → World
  looked_up input w = (get_user_row on_db find_by_email_sql (varchar input.email ∷ []) w).1

  -- Nobody has these credentials.
  abbrev pub NotKnown : World → Credentials → Type 0
  NotKnown w input =
      (users w input.email ≡ none)
      ⊎ ((row : UserRow) × (users w input.email ≡ some row)
          × (matches row.password_hash input.password ≡ false))

  abbrev pub LoggedIn : Credentials → World → AuthOutput → Type 0
  LoggedIn input v out = Knows v input out.user_id × IsTokenOf v out.user_id out.token

  abbrev pub LoginFailed : Credentials → World → Error → Type 0
  LoginFailed input v e =
      ((e ≡ invalid_credentials) × NotKnown v input)
      ⊎ ((cause : Error) × ((e ≡ wrapped "find user" cause) ⊎ (e ≡ wrapped "generate token" cause)))

  authenticate_lem :
      (input : Credentials) (v w : World) (found : Option User)
      → v ≡ w
      → Found user_of (λ row. users v input.email ≡ some row) (users v input.email ≡ none) found
      → Ensures
          (λ out w'. LoggedIn input v out)
          (λ e w'. LoginFailed input v e)
          (authenticate p i config input found w)
  unfolding authenticate
  authenticate_lem input v w none same absent = failed (inl (refl, inl absent))
  authenticate_lem input v w (some u) same (row, is, stored) =
      rw is (elim (Bool-cases (matches row.password_hash input.password)) [
        | inr wrong ↦ rw wrong (failed (inl (refl, inr (row, stored, wrong))))
        | inl right ↦ rw right (
            Ensures-follow {Q = λ e w'. LoginFailed input v e}
              (Ensures-change_error (wrapped "generate token") (generate_token_lem row.id w)
                (λ e w' k. inr (e, inr refl)))
              _ (λ token w' k. returned ((row, stored, refl, right), rw (← same) at k.1))
              (λ e w' k. k))
      ])

  -- Login: a result is a token, signed under the configured secret, for the user that the lookup
  -- found under the email and whose hash matches the password; it expires when the configured time
  -- has passed since the clock was read, after the lookup. An error is "invalid credentials", and
  -- then the lookup found no user or the hash does not match, or it wraps a failed lookup or a
  -- failed signature.
  pub login_lem :
      (input : Credentials) (w : World)
      → Ensures
          (λ out w'. LoggedIn input (looked_up input w) out)
          (λ e w'. LoginFailed input (looked_up input w) e)
          (login p i config background input w)
  unfolding login find_by_email
  login_lem input w =
      let (stays, shown) = d.find_law input.email w in
      let v : World = looked_up input w in
      Ensures-follow {Q = λ e w'. LoginFailed input v e}
        (Ensures-change_error (wrapped "find user")
          (row_or_nil_lem user_of "find user by email" (λ row w'. users v input.email ≡ some row)
            (λ w'. users v input.email ≡ none) (λ w'. v ≡ w') _ _ refl shown)
          (λ e w' k. inr (e, inl refl)))
        (authenticate p i config input) (λ found w' k. authenticate_lem input v w' found k.0 k.1)
        (λ e w' k. k)
