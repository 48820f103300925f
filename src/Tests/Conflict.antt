-- ===== src/Tests/Conflict.antt =====
-- A database in which another client has always changed the version meanwhile.
use mileage_core.Base.{String, ◌≡◌, ◌↔◌, refl, none, some, List, [], ◌∷◌, true, arith}
use mileage_core.Base.Int.{pos, ◌+ℤ◌}
use mileage_core.Base.Int64.{wrap64}
use mileage_core.Errors.{Error, sentinel, wrapped, errors_is, optimistic_lock}
use mileage_core.Effect.{returns, fails}
use mileage_core.Domain.Account.{grant}
use mileage_core.Platform.{Platform, Reply, done, SqlValue, varchar, bigint, SqlResult}
use mileage_core.Mysql.Tx.{background, run_in_tx, finish}
use mileage_core.Mysql.MileageRepository.{
  get_account, update_balance, insert_transaction, find_transaction_by_idempotency_key,
}
use mileage_core.Tables.{find_row}
use mileage_core.Usecase.Posting.{
  grant_flow, max_retries, attempts, execute_in_tx, post, post_account, record_posting,
}
use mileage_core.Usecase.Posting.Conflict.{Lost, attempts_lock_iff}
use mileage_core.Handler.Mileage.{handle_posting}
use mileage_core.Handler.Mileage.Conflict.{conflict_response, handle_posting-conflict}
use mileage_core.Tests.Memory.{
  Memory, memory, exec, no_row, insert_into, write, row_if, account_reply, get_account_row,
  get_transaction_row, next_id,
}
use mileage_core.Tests.Posting.{start, request}
use mileage_core.Tests.Handler.{posted}

race : List SqlValue → Memory → Reply SqlResult × Memory
race (bigint balance ∷ varchar user ∷ bigint version ∷ []) m = (done no_row, m)
race arguments m = exec arguments m

abbrev contended : Platform
contended = record memory { exec_context = λ q sql arguments m. race arguments m }

abbrev lock_error : Error
lock_error = sentinel optimistic_lock

-- The world after so many attempts: each has taken an identifier.
abbrev tried : List String → Memory
tried ids = record start { ids = ids }

attempt :
    (id : String) (ids : List String)
    → execute_in_tx contended grant_flow background (request "k" (pos 100)) (tried (id ∷ ids))
      ≡ fails lock_error (tried ids)
unfolding execute_in_tx post post_account record_posting run_in_tx finish get_account update_balance
    insert_transaction find_row write insert_into exec row_if account_reply get_account_row next_id
    ◌+ℤ◌ wrap64 grant race
attempt id ids = refl

lost :
    Lost contended grant_flow background
      (request "k" (pos 100))
      max_retries
      none
      start
      lock_error
      (tried [])
unfolding errors_is
lost = (
  lock_error,
  tried ("01B" ∷ "01C" ∷ []),
  attempt "01A" ("01B" ∷ "01C" ∷ []),
  refl,
  (
    lock_error,
    tried ("01C" ∷ []),
    attempt "01B" ("01C" ∷ []),
    refl,
    (lock_error, tried [], attempt "01C" [], refl, (refl, refl)),
  ),
)

attempts_lock_iff_example :
    ((attempts contended grant_flow max_retries none background (request "k" (pos 100)) start
        ≡ fails (wrapped grant_flow.failure lock_error) (tried []))
      × (errors_is (wrapped grant_flow.failure lock_error) optimistic_lock ≡ true))
    ↔ ((x : Error) × (wrapped grant_flow.failure lock_error ≡ wrapped grant_flow.failure x)
        × Lost contended grant_flow background
            (request "k" (pos 100))
            max_retries
            none
            start
            x
            (tried []))
attempts_lock_iff_example =
    attempts_lock_iff contended grant_flow background (request "k" (pos 100)) start (tried [])
      (wrapped grant_flow.failure lock_error)

key_is_free :
    find_transaction_by_idempotency_key contended background "alice" "k" grant_flow.kind start
    ≡ returns none start
unfolding find_transaction_by_idempotency_key get_transaction_row find_row
key_is_free = refl

handle_posting-conflict_example :
    handle_posting contended grant_flow "grant" posted
      (some (record { amount = pos 100; reason = "" }))
      start
    ≡ returns (conflict_response posted "grant") (tried [])
handle_posting-conflict_example =
    handle_posting-conflict posted "grant" contended grant_flow
      (record { amount = pos 100; reason = "" }) start start lock_error (tried []) (ground arith)
      (λ e. cc) key_is_free lost
