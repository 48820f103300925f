-- ===== src/Usecase/Auth/Signup.antt =====
-- A signup as one of the clients of the two tables of the points.
use mileage_core.Base.{String, Bool, true, ◌≡◌, ◌⊎◌, inl, inr, Option, none, some, [], ◌∷◌}
use mileage_core.Base.Int.{pos}
use mileage_core.Errors.{
  DriverError, no_rows, redis_nil, mysql_error, other_error, Error, wrapped, driver,
}
use mileage_core.Effect.{
  Outcome, Action, follow, change_error, pure, Ensures, returned, failed, Ensures-follow,
  Ensures-weaken, Ensures-change_error,
}
use mileage_core.Platform.{Platform, Reply, done, refused, on_db, varchar}
use mileage_core.Domain.User.{User}
use mileage_core.Mysql.Rows.{AccountRow}
use mileage_core.Mysql.Tx.{background, expect, executed}
use mileage_core.Mysql.MileageRepository.{insert_account_sql, row_or_nil, create_account}
use mileage_core.Mysql.Contract.{Server, On}
use mileage_core.Mysql.UserRepository.{
  Identity, user_of, insert_user_sql, find_by_email_sql, create, find_by_email,
}
use mileage_core.Tables.{Tables}
use mileage_core.Usecase.Auth.{
  JwtConfig, Credentials, generate_token, register, unless_registered, signup,
}
use mileage_core.Usecase.Posting.Clients.{opening, opened, Reach, here, next, Reach-trans}
use mileage_core.Usecase.Posting.Clients.Books.{IsSound, Reach-IsSound}
use mileage_core.Usecase.Posting.Clients.Solvent.{Solvent, Reach-Solvent}

-- An INSERT of an account that is committed: at one point, under a primary key that is free, with
-- the defaults of the columns.
pub record Inserted (same : String → String → Bool) (Others : Tables → Tables → Type 0)
    (id : String) (before after : Tables) : Type 0 where
  pub point : Tables
  pub row : AccountRow
  pub reached : Others before point
  pub named : row.user_id ≡ id
  pub zero_balance : row.balance ≡ pos 0
  pub zero_version : row.version ≡ pos 0
  pub absent : (u : String) → same row.user_id u ≡ true → point.accounts u ≡ none
  pub result : after ≡ opened same row point

-- What a signup relies on for the tables of the points: no other statement of it, nor bcrypt or the
-- clock, touches them.
pub record Enrolment (p : Platform) (s : Server p) (i : Identity p) : Type 0 where
  pub user_law :
      (email : String) (w : p.World)
      → s.Others
          (s.committed w)
          (s.committed (i.get_user_row on_db find_by_email_sql (varchar email ∷ []) w).1)
  pub insert_user_law :
      (id email hash : String) (w : p.World)
      → s.Others (s.committed w) (
          s.committed
            (p.exec_context on_db insert_user_sql
              (varchar id ∷ varchar email ∷ varchar hash ∷ [])
              w).1)
  -- If the statement reports an error, it may have been committed or not.
  pub insert_account_law :
      (id : String) (w : p.World)
      → let (r, w') = p.exec_context on_db insert_account_sql (varchar id ∷ []) w in
        On r
          (λ res. Inserted s.same s.Others id (s.committed w) (s.committed w'))
          (λ d.
            s.Others (s.committed w) (s.committed w')
            ⊎ Inserted s.same s.Others id (s.committed w) (s.committed w'))
  pub hash_law :
      (password : String) (w : p.World)
      → s.Others (s.committed w) (s.committed (i.generate_from_password password w).1)
  pub clock_law : (w : p.World) → s.Others (s.committed w) (s.committed (i.now w).1)

-- The books are sound and every user solvent.
abbrev pub InOrder : (p : Platform) (s : Server p) → p.World → Type 0
InOrder p s w = IsSound s.same (s.committed w) × ((u : String) → Solvent s.same (s.committed w) u)

module _ (p : Platform) (s : Server p) (i : Identity p) (law : Enrolment p s i) (config : JwtConfig)
    (clients : (a b : Tables) → s.Others a b → Reach s.same a b) where
  open p use {World}
  open s use {committed, same, Others}

  -- A call that returns or fails, and makes steps of the clients.
  abbrev Moves : {A : Type 0} → World → Outcome World A → Type 0
  Moves w o =
      Ensures (λ a w'. Reach same (committed w) (committed w'))
        (λ e w'. Reach same (committed w) (committed w')) o

  after-Moves :
      {A : Type 0} (w v : World) {o : Outcome World A}
      → Reach same (committed w) (committed v)
      → Moves v o
      → Moves w o
  after-Moves w v r h =
      Ensures-weaken h (λ a w' q. Reach-trans same r q) (λ e w' q. Reach-trans same r q)

  follow-Moves :
      {A B : Type 0} (w : World) {o : Outcome World A}
      → Moves w o
      → (f : A → Action World B) → ((a : A) (v : World) → Moves v (f a v))
      → Moves w (follow o f)
  follow-Moves w h f rest = Ensures-follow h f (λ a v r. after-Moves w v r (rest a v)) (λ e v r. r)

  wrapped-Moves :
      {A : Type 0} (w : World) (g : Error → Error) {o : Outcome World A}
      → Moves w o
      → Moves w (change_error g o)
  wrapped-Moves w g h = Ensures-change_error g h (λ e v r. r)

  expect-Moves :
      {A : Type 0} (w : World) (g : DriverError → Error) (r : Reply A) (v : World)
      → Reach same (committed w) (committed v)
      → Moves w (expect g r v)
  expect-Moves w g (done a) v reach = returned reach
  expect-Moves w g (refused d) v reach = failed reach

  executed-Moves :
      {A : Type 0} (w : World) (g : DriverError → Error) (r : Reply A) (v : World)
      → Reach same (committed w) (committed v)
      → Moves w (executed g r v)
  executed-Moves w g (done a) v reach = returned reach
  executed-Moves w g (refused d) v reach = failed reach

  row_or_nil-Moves :
      {R A : Type 0} (w : World) (f : R → A) (prefix : String) (r : Reply R) (v : World)
      → Reach same (committed w) (committed v)
      → Moves w (row_or_nil f prefix r v)
  row_or_nil-Moves w f prefix (done row) v reach = returned reach
  row_or_nil-Moves w f prefix (refused no_rows) v reach = returned reach
  row_or_nil-Moves w f prefix (refused redis_nil) v reach = failed reach
  row_or_nil-Moves w f prefix (refused (mysql_error n m)) v reach = failed reach
  row_or_nil-Moves w f prefix (refused (other_error m)) v reach = failed reach

  Inserted-Reach : (id : String) (a b : Tables) → Inserted same Others id a b → Reach same a b
  Inserted-Reach id a b h =
      next (clients _ _ h.reached) (opening h.row h.zero_balance h.zero_version h.absent h.result)

  create_account-Moves : (id : String) (w : World) → Moves w (create_account p background id w)
  unfolding create_account
  create_account-Moves id w = executed-Moves w _ _ _ (moved _ _ (law.insert_account_law id w))
    where
      moved :
          {A : Type 0} (r : Reply A) (v : World)
          → On r
              (λ a. Inserted same Others id (committed w) (committed v))
              (λ d.
                Others (committed w) (committed v)
                ⊎ Inserted same Others id (committed w) (committed v))
          → Reach same (committed w) (committed v)
      moved (done a) v h = Inserted-Reach id _ _ h
      moved (refused d) v (inl o) = clients _ _ o
      moved (refused d) v (inr h) = Inserted-Reach id _ _ h

  generate_token-Moves : (id : String) (w : World) → Moves w (generate_token p i config id w)
  unfolding generate_token
  generate_token-Moves id w =
      expect-Moves w driver _ _
        (Reach-trans same (clients _ _ (law.clock_law w)) (clients _ _ (law.clock_law (i.now w).1)))

  create-Moves : (u : User) (w : World) → Moves w (create p i background u w)
  unfolding create
  create-Moves u w =
      executed-Moves w _ _ _ (clients _ _ (law.insert_user_law u.id u.email u.password_hash w))

  register-Moves :
      (input : Credentials) (w : World) → Moves w (register p i config background input w)
  unfolding register
  register-Moves input w =
      follow-Moves w
        (expect-Moves w (λ d. wrapped "hash password" (driver d))
          (i.generate_from_password input.password w).0 _
          (clients _ _ (law.hash_law input.password w)))
        _
        (λ hash v.
          let (id, v₁) = p.new_ulid v in
          after-Moves v v₁ (clients _ _ (s.ulid_law v).0) (
            follow-Moves v₁
              (wrapped-Moves v₁ (wrapped "create user") (
                create-Moves
                  (record {
                    id = id;
                    email = input.email;
                    password_hash = hash;
                    created_at = 0;
                    updated_at = 0;
                  })
                  v₁))
              _
              (λ u v₂.
                follow-Moves v₂
                  (wrapped-Moves v₂ (wrapped "create mileage account") (create_account-Moves id v₂))
                  _
                  (λ u' v₃.
                    follow-Moves v₃
                      (wrapped-Moves v₃ (wrapped "generate token") (generate_token-Moves id v₃))
                      (λ token. pure (record { user_id = id; token = token }))
                      (λ token v₄. returned here)))))

  unless_registered-Moves :
      (input : Credentials) (found : Option User) (w : World)
      → Moves w (unless_registered p i config background input found w)
  unless_registered-Moves input none w = register-Moves input w
  unless_registered-Moves input (some u) w = failed here

  signup-Moves : (input : Credentials) (w : World) → Moves w (signup p i config background input w)
  unfolding signup find_by_email
  signup-Moves input w =
      follow-Moves w
        (wrapped-Moves w (wrapped "find user") (
          row_or_nil-Moves w user_of "find user by email" _ _
            (clients _ _ (law.user_law input.email w))))
        (unless_registered p i config background input)
        (λ found v. unless_registered-Moves input found v)

  -- If all other clients only make postings and open accounts, and the books are sound and every user
  -- solvent when a signup is called, then it returns a result or an error, with no panic, and the
  -- books are sound and every user solvent after it, though the account is opened outside of a
  -- transaction.
  pub signup-InOrder :
      (input : Credentials) (w : World)
      → InOrder p s w
      → Ensures
          (λ out w'. InOrder p s w')
          (λ e w'. InOrder p s w')
          (signup p i config background input w)
  signup-InOrder input w (sound, solvent) =
      Ensures-weaken (signup-Moves input w) (λ out w' r. in_order w' r) (λ e w' r. in_order w' r)
    where
      in_order : (w' : World) → Reach same (committed w) (committed w') → InOrder p s w'
      in_order w' r = (
        Reach-IsSound same s.same_symm s.same_trans r sound,
        Reach-Solvent same s.same_symm s.same_trans r solvent,
      )
