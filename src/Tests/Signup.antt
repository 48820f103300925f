-- ===== src/Tests/Signup.antt =====
-- A signup on the memory platform, among clients that make no other step.
use text.Mathlib.Text.{◌==◌ as str_eq}
use text.Mathlib.TextEquality.{eq_iff}
use mileage_core.Base.{String, ◌≡◌, refl, ap, sym, ◌∙◌, ◌⊎◌, inl, Option, none, some, [], ◌∷◌}
use mileage_core.Base.Int.{pos}
use mileage_core.Effect.{Ensures}
use mileage_core.Mysql.Tx.{background}
use mileage_core.Mysql.Rows.{AccountRow}
use mileage_core.Mysql.Contract.{On}
use mileage_core.Platform.{varchar}
use mileage_core.Usecase.Auth.{signup}
use mileage_core.Usecase.Auth.Signup.{Inserted, Enrolment, InOrder, signup-InOrder}
use mileage_core.Usecase.Posting.Clients.{Reach-of}
use mileage_core.Tests.Memory.{Memory, memory, exec, insert_user, insert_account}
use mileage_core.Tests.Server.{Same, memory_server}
use mileage_core.Tests.Auth.{user_reply, identity, config, alice}
use mileage_core.Tests.Posting.{start}
use mileage_core.Tests.Clients.{start-IsSound, start-Solvent}

user_law : (email : String) (m : Memory) → m.tables ≡ (user_reply (varchar email ∷ []) m).1.tables
unfolding user_reply
user_law email m = refl

insert_user-tables : (m : Memory) (r : _) (o : _) → m.tables ≡ (insert_user r o m).1.tables
unfolding insert_user
insert_user-tables m r none = refl
insert_user-tables m r (some taken) = refl

insert_user_law :
    (id email hash : String) (m : Memory)
    → m.tables ≡ (exec (varchar id ∷ varchar email ∷ varchar hash ∷ []) m).1.tables
unfolding exec
insert_user_law id email hash m = insert_user-tables m _ (m.users email)

insert_account_lem :
    (id : String) (o : Option AccountRow) (m : Memory)
    → m.tables.accounts id ≡ o
    → let (r, m') = insert_account id o m in
      On r
        (λ res. Inserted str_eq Same id m.tables m'.tables)
        (λ d. Same m.tables m'.tables ⊎ Inserted str_eq Same id m.tables m'.tables)
unfolding insert_account
insert_account_lem id (some taken) m stored = inl refl
insert_account_lem id none m free = record {
  point = m.tables;
  row = record { user_id = id; balance = pos 0; version = pos 0; updated_at = none };
  reached = refl;
  named = refl;
  zero_balance = refl;
  zero_version = refl;
  absent = λ u is. ap m.tables.accounts (sym ((eq_iff id u).0 is)) ∙ free;
  result = refl;
}

insert_account_law :
    (id : String) (m : Memory)
    → let (r, m') = exec (varchar id ∷ []) m in
      On r
        (λ res. Inserted str_eq Same id m.tables m'.tables)
        (λ d. Same m.tables m'.tables ⊎ Inserted str_eq Same id m.tables m'.tables)
unfolding exec
insert_account_law id m = insert_account_lem id (m.tables.accounts id) m refl

abbrev enrolment : Enrolment memory memory_server identity
enrolment = record {
  user_law = user_law;
  insert_user_law = insert_user_law;
  insert_account_law = insert_account_law;
  hash_law = λ password m. refl;
  clock_law = λ m. refl;
}

signup-InOrder_example :
    Ensures
      (λ out m. InOrder memory memory_server m)
      (λ e m. InOrder memory memory_server m)
      (signup memory identity config background alice start)
signup-InOrder_example =
    signup-InOrder memory memory_server identity enrolment config (λ a b same. Reach-of str_eq same)
      alice start (start-IsSound, start-Solvent)
