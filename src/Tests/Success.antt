-- ===== src/Tests/Success.antt =====
-- The memory platform is a database that works, with no other client.
use text.Mathlib.Text.{◌==◌ as str_eq}
use mileage_core.Base.{String, true, ◌≡◌, ◌≢◌, refl, Option, none, some, inl, List, [], ◌∷◌, arith}
use mileage_core.Base.Int.{ℤ, pos, ◌+ℤ◌, eqb_ℤ_refl}
use mileage_core.Base.Int64.{IsInt64, wrap64}
use mileage_core.Effect.{Ensures}
use mileage_core.Domain.{MileageTransaction}
use mileage_core.Domain.Account.{MileageAccount, grant}
use mileage_core.Mysql.Tx.{background}
use mileage_core.Mysql.Rows.{AccountRow, account_of}
use mileage_core.Mysql.MileageRepository.{insert_arguments}
use mileage_core.Mysql.Contract.{On}
use mileage_core.Mysql.Calm.{Calm, IsDone, IsRead}
use mileage_core.Platform.{varchar, bigint}
use mileage_core.Tables.{Tables, Write, insert_row, update_row, find_row, AllLocked}
use mileage_core.Usecase.Posting.{grant_flow, execute}
use mileage_core.Usecase.Posting.Success.{Posts, execute-Posts}
use mileage_core.Usecase.Posting.Success.Steps.{Ready}
use mileage_core.Usecase.Posting.Success.Repeat.{execute-twice}
use mileage_core.Tests.Memory.{
  Memory, memory, is_int64, is_free, insert_into, update_if, update_at, exec, commit_if, row_if,
  account_reply, get_account_row, get_transaction_row, found,
}
use mileage_core.Base.{if◌then◌else◌}
use mileage_core.Handler.{Request}
use mileage_core.Handler.Mileage.{PostingRequest, handle_posting}
use mileage_core.Handler.Mileage.Success.{Acknowledged, handle_posting-Posts}
use mileage_core.Tests.Server.{memory_server}
use mileage_core.Tests.Posting.{alice_row, start, request}

is_int64_complete : (z : ℤ) → IsInt64 z → is_int64 z ≡ true
is_int64_complete z h = ground arith

is_free_complete :
    (xs : List Write) (t : Tables) → AllLocked str_eq t t xs → is_free xs t.transactions ≡ true
unfolding is_free
is_free_complete [] t h = refl
is_free_complete (insert_row r ∷ xs) t (absent, rest) =
    rw (is_free, absent) (is_free_complete xs t rest)
is_free_complete (update_row key r ∷ xs) t (kept, rest) = is_free_complete xs t rest

pub commit_law :
    (m : Memory)
    → AllLocked str_eq m.tables m.tables m.writes
    → IsDone (commit_if (is_free m.writes m.tables.transactions) m).0
unfolding commit_if
commit_law m locked = rw (is_free_complete m.writes m.tables locked) tt

pub select_law :
    (u : String) (m : Memory) (row : AccountRow)
    → m.tables.accounts u ≡ some row
    → IsInt64 row.balance
    → IsInt64 row.version
    → IsRead (get_account_row (varchar u ∷ []) m).0
unfolding get_account_row account_reply row_if
select_law u m row stored balance version =
    rw (stored, is_int64_complete row.balance balance, is_int64_complete row.version version) tt

found_IsRead : {R : Type 0} (o : Option R) → IsRead (found o)
found_IsRead none = refl
found_IsRead (some row) = tt

pub find_law :
    (u key kind : String) (m : Memory)
    → IsRead (get_transaction_row (varchar u ∷ varchar key ∷ varchar kind ∷ []) m).0
unfolding get_transaction_row
find_law u key kind m = found_IsRead (find_row str_eq u key kind m.tables.transactions)

pub insert_law :
    (t : MileageTransaction) (m : Memory)
    → find_row str_eq t.user_id t.idempotency_key t.kind m.tables.transactions ≡ none
    → IsDone (exec (insert_arguments t) m).0
unfolding exec insert_into
insert_law t m fresh = rw fresh tt

pub update_law :
    (u : String) (balance version : ℤ) (m : Memory) (row : AccountRow)
    → m.tables.accounts u ≡ some row
    → row.version ≡ version
    → IsInt64 (version +ℤ pos 1)
    → On
        (exec (bigint balance ∷ varchar u ∷ bigint version ∷ []) m).0
        (λ res. On res.rows_affected (λ rows. rows ≢ 0) (λ d. ⊥))
        (λ d. ⊥)
unfolding exec update_at update_if
update_law u balance version m row stored at range =
    rw (stored, at, eqb_ℤ_refl version, is_int64_complete (version +ℤ pos 1) range)
      (λ e. absurd (omega arith))

abbrev pub calm : Calm memory memory_server
calm = record {
  only_client = λ a b same. same;
  Fits = λ m. Unit {0};
  begins = λ m. tt;
  commits = λ t m locked. commit_law m locked;
  selects = λ t u m row stored balance version. select_law u m row stored balance version;
  selects_outside = select_law;
  finds = find_law;
  inserts = λ t x m fits clean fresh. insert_law x m fresh;
  updates = λ t u balance version m row stored at fits range.
      update_law u balance version m row stored at range;
}

abbrev pub granted_account : MileageAccount
granted_account = (grant (account_of alice_row) (pos 100)).1

pub start-Ready :
    Ready memory memory_server calm grant_flow
      (request "k" (pos 100))
      alice_row
      granted_account
      start.tables
unfolding grant wrap64 ◌+ℤ◌ find_row
start-Ready = record {
  stored = refl;
  balance_range = ground arith;
  version_range = ground arith;
  next_range = ground arith;
  accepted = refl;
  changed_range = ground arith;
  fresh = refl;
  fits = λ id. tt;
}

execute-Posts_example :
    Ensures
      (Posts memory memory_server calm grant_flow
        (request "k" (pos 100))
        alice_row
        granted_account
        start)
      (λ e w. ⊥)
      (execute memory grant_flow background (request "k" (pos 100)) start)
execute-Posts_example =
    execute-Posts memory memory_server calm grant_flow (request "k" (pos 100)) alice_row
      granted_account start (ground arith) (λ e. cc) start-Ready

execute-twice_example :
    Ensures
      (λ out w.
        Ensures
          (λ again v. (again ≡ out) × (w.tables ≡ v.tables))
          (λ e v. ⊥)
          (execute memory grant_flow background (request "k" (pos 100)) w))
      (λ e w. ⊥)
      (execute memory grant_flow background (request "k" (pos 100)) start)
execute-twice_example =
    execute-twice memory memory_server calm grant_flow (request "k" (pos 100)) alice_row
      granted_account (inl refl) start (ground arith) (λ e. cc) start-Ready

-- A request to grant 100 points to alice.
abbrev pub asked : Request
asked = record {
  user_id = some "alice";
  request_id = none;
  header = λ name. if str_eq name "Idempotency-Key" then "k" else "";
  query_param = λ name. "";
  method = "POST";
  path = "/v1/mileage/grant";
  route = "/v1/mileage/grant";
  content = "";
}

abbrev body : PostingRequest
body = record { amount = pos 100; reason = "" }

handle_posting-Posts_example :
    Ensures
      (Acknowledged memory memory_server calm grant_flow "grant" asked body alice_row
        granted_account start)
      (λ e w. ⊥)
      (handle_posting memory grant_flow "grant" asked (some body) start)
handle_posting-Posts_example =
    handle_posting-Posts memory memory_server calm grant_flow "grant" asked body alice_row
      granted_account start (λ e. cc) (ground arith) start-Ready
