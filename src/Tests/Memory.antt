-- ===== src/Tests/Memory.antt =====
-- A platform in memory, with one client and one transaction at a time: it shows that the contract
-- can be met, and runs the code.
use text.Mathlib.Text.{◌==◌ as str_eq}
use Prim.Native.Nat.{Ordering}
use Prim.Native.String.{compare}
use mileage_core.Mysql.Listing.{rows_below}
use mileage_core.Base.{
  take, String, Bool, true, false, ◌≡◌, refl, inl, inr, ◌&&◌, ◌-◌, ◌^◌, Option, none, some, List,
  [], ◌∷◌, ◌++◌, Option-cases, arith, if◌then◌else◌,
}
use mileage_core.Base.Int.{ℤ, pos, negsuc, ◌+ℤ◌, leb_ℤ, eqb_ℤ}
use mileage_core.Base.Int64.{IsInt64}
use mileage_core.Errors.{DriverError, no_rows, redis_nil, mysql_error, other_error}
use mileage_core.Mysql.Rows.{AccountRow, TransactionRow}
use mileage_core.Mysql.UserRepository.{UserRow}
use mileage_core.Mysql.Contract.{updated_row}
use mileage_core.Usecase.Achievement.Log.{EventRow}
use mileage_core.Platform.{
  Platform, Reply, done, refused, SqlValue, varchar, bigint, SqlResult, BalanceCache,
}
use mileage_core.Tables.{Tables, Write, insert_row, update_row, find_row, apply_all, AllLocked}

pub record Memory : Type 0 where
  pub tables : Tables
  pub writes : List Write
  pub cache : List (String × BalanceCache)
  pub ids : List String
  pub users : String → Option UserRow
  pub events : List EventRow

abbrev pub is_int64 : ℤ → Bool
is_int64 z = leb_ℤ z (pos (2 ^ 63 - 1)) && leb_ℤ (negsuc (2 ^ 63 - 1)) z

pub is_int64_sound : (z : ℤ) → is_int64 z ≡ true → IsInt64 z
is_int64_sound z h = ground arith

-- Only the keys of inserted rows can be taken when a transaction commits.
unfoldable pub is_free : List Write → List TransactionRow → Bool
is_free [] rs = true
is_free (insert_row r ∷ xs) rs =
    let rest = is_free xs rs in
    elim (find_row str_eq r.user_id r.idempotency_key r.kind rs) [ none ↦ rest | some _ ↦ false ]
is_free (update_row key r ∷ xs) rs = is_free xs rs

pub is_free_sound :
    (xs : List Write) (t : Tables) → is_free xs t.transactions ≡ true → AllLocked str_eq t t xs
unfolding is_free
is_free_sound [] t h = tt
is_free_sound (insert_row r ∷ xs) t h =
    elim (Option-cases (find_row str_eq r.user_id r.idempotency_key r.kind t.transactions)) [
      | inl absent ↦ (absent, is_free_sound xs t (ground arith))
      | inr (other, taken) ↦ absurd (ground arith)
    ]
is_free_sound (update_row key r ∷ xs) t h = (refl, is_free_sound xs t h)

unfoldable pub write : Write → Memory → Memory
write x m = record m { writes = m.writes ++ (x ∷ []) }

abbrev pub one_row : SqlResult
one_row = record { rows_affected = done 1 }

abbrev pub no_row : SqlResult
no_row = record { rows_affected = done 0 }

abbrev pub duplicate : DriverError
duplicate =
    mysql_error 1062 "Duplicate entry for key 'mileage_transactions.uk_transactions_idempotency'"

unfoldable pub insert_into :
    TransactionRow → Option TransactionRow → Memory → Reply SqlResult × Memory
unfolding write
insert_into r none m = (done one_row, write (insert_row r) m)
insert_into r (some taken) m = (refused duplicate, m)

unfoldable pub update_if : String → AccountRow → Bool → Bool → Memory → Reply SqlResult × Memory
unfolding write
update_if user next true true m = (done one_row, write (update_row user next) m)
update_if user next true false m = (refused (other_error "out of range"), m)
update_if user next false fits m = (done no_row, m)

unfoldable pub update_at : String → ℤ → ℤ → Option AccountRow → Memory → Reply SqlResult × Memory
unfolding update_if
update_at user balance version none m = (done no_row, m)
update_at user balance version (some row) m =
    update_if user (updated_row row balance none) (eqb_ℤ row.version version)
      (is_int64 (row.version +ℤ pos 1)) m

-- A row of the users table, under its unique email.
unfoldable pub insert_user : UserRow → Option UserRow → Memory → Reply SqlResult × Memory
insert_user r none m =
    (done one_row, record m { users = λ e. if str_eq r.email e then some r else m.users e })
insert_user r (some taken) m = (refused duplicate, m)

unfoldable pub insert_account : String → Option AccountRow → Memory → Reply SqlResult × Memory
insert_account id none m = (
  done one_row,
  record m {
    tables = record m.tables {
      accounts = λ u.
          if str_eq id u
          then some (record { user_id = id; balance = pos 0; version = pos 0; updated_at = none })
          else m.tables.accounts u;
    };
  },
)
insert_account id (some taken) m = (refused duplicate, m)

unfoldable pub exec : List SqlValue → Memory → Reply SqlResult × Memory
unfolding insert_into update_at insert_user insert_account
exec
      (varchar id
        ∷ varchar user
        ∷ bigint amount
        ∷ varchar kind
        ∷ varchar key
        ∷ varchar reason
        ∷ varchar request
        ∷ [])
      m =
    insert_into
      (record {
        id = id;
        user_id = user;
        amount = amount;
        kind = kind;
        idempotency_key = key;
        reason = reason;
        request_id = request;
        created_at = none;
      })
      (find_row str_eq user key kind m.tables.transactions) m
exec (bigint balance ∷ varchar user ∷ bigint version ∷ []) m =
    update_at user balance version (m.tables.accounts user) m
exec (varchar id ∷ varchar email ∷ varchar hash ∷ []) m =
    insert_user
      (record {
        id = id;
        email = email;
        password_hash = hash;
        created_at = none;
        updated_at = none;
      })
      (m.users email) m
exec (varchar id ∷ varchar user ∷ varchar action ∷ varchar key ∷ []) m = (
  done one_row,
  record m {
    events =
        (record { id = id; user_id = user; action_type = action; idempotency_key = key })
        ∷ m.events;
  },
)
exec (varchar id ∷ []) m = insert_account id (m.tables.accounts id) m
exec _ m = (refused (other_error "syntax"), m)

unfoldable pub commit_if : Bool → Memory → Reply (Unit {0}) × Memory
commit_if true m = (done tt, record m { tables = apply_all str_eq m.writes m.tables; writes = [] })
commit_if false m = (refused duplicate, record m { writes = [] })

unfoldable pub row_if : AccountRow → Bool → Memory → Reply AccountRow × Memory
row_if row true m = (done row, m)
row_if row false m = (refused (other_error "out of range"), m)

unfoldable pub account_reply : Option AccountRow → Memory → Reply AccountRow × Memory
unfolding row_if
account_reply none m = (refused no_rows, m)
account_reply (some row) m = row_if row (is_int64 row.balance && is_int64 row.version) m

unfoldable pub get_account_row : List SqlValue → Memory → Reply AccountRow × Memory
unfolding account_reply
get_account_row (varchar user ∷ []) m = account_reply (m.tables.accounts user) m
get_account_row _ m = (refused (other_error "syntax"), m)

abbrev pub found : {R : Type 0} → Option R → Reply R
found none = refused no_rows
found (some row) = done row

unfoldable pub get_transaction_row : List SqlValue → Memory → Reply TransactionRow × Memory
get_transaction_row (varchar user ∷ varchar key ∷ varchar kind ∷ []) m =
    (found (find_row str_eq user key kind m.tables.transactions), m)
get_transaction_row _ m = (refused (other_error "syntax"), m)

-- Identifiers compare as strings of characters.
abbrev is_lt : Ordering → Bool
is_lt Ordering.lt = true
is_lt _ = false

abbrev pub below : String → String → Bool
below a b = is_lt (compare a b)

unfoldable pub rows_of : String → List TransactionRow → List TransactionRow
rows_of user [] = []
rows_of user (r ∷ rs) =
    let rest = rows_of user rs in if str_eq r.user_id user then r ∷ rest else rest

abbrev pub limited : ℤ → List TransactionRow → Reply (List TransactionRow)
limited (pos n) rows = done (take n rows)
limited (negsuc n) rows = refused (other_error "LIMIT")

unfoldable pub select_transactions : List SqlValue → Memory → Reply (List TransactionRow) × Memory
select_transactions (varchar user ∷ bigint n ∷ []) m =
    (limited n (rows_of user m.tables.transactions), m)
select_transactions (varchar user ∷ varchar cursor ∷ bigint n ∷ []) m =
    (limited n (rows_below below cursor (rows_of user m.tables.transactions)), m)
select_transactions _ m = (refused (other_error "syntax"), m)

unfoldable pub cached : String → List (String × BalanceCache) → Reply BalanceCache
cached key [] = refused redis_nil
cached key ((k, v) ∷ rest) = if str_eq k key then done v else cached key rest

unfoldable pub dropped : String → List (String × BalanceCache) → List (String × BalanceCache)
dropped key [] = []
dropped key ((k, v) ∷ rest) =
    let others = dropped key rest in if str_eq k key then others else (k, v) ∷ others

unfoldable pub next_id : List String → Memory → String × Memory
next_id [] m = ("", m)
next_id (id ∷ rest) m = (id, record m { ids = rest })

abbrev pub memory : Platform
memory = record {
  World = Memory;
  Tx = Unit {0};
  begin_txx = λ m. (done tt, record m { writes = [] });
  commit = λ t m. commit_if (is_free m.writes m.tables.transactions) m;
  rollback = λ t m. (done tt, record m { writes = [] });
  exec_context = λ q sql arguments m. exec arguments m;
  get_account_row = λ q sql arguments m. get_account_row arguments m;
  get_transaction_row = λ q sql arguments m. get_transaction_row arguments m;
  select_transaction_rows = λ q sql arguments m. select_transactions arguments m;
  Bytes = BalanceCache;
  redis_get = λ key m. (cached key m.cache, m);
  redis_set =
      λ key bytes minutes m. (done tt, record m { cache = (key, bytes) ∷ dropped key m.cache });
  redis_del = λ key m. (done tt, record m { cache = dropped key m.cache });
  marshal = λ c. done c;
  unmarshal = λ b. done b;
  new_ulid = λ m. next_id m.ids m;
  format_time = λ t. "";
}
