-- ===== src/Tests/Posting.antt =====
-- Grants and redemptions on the memory platform.
use text.Mathlib.Text.{◌==◌ as str_eq}
use mileage_core.Base.{
  String, ◌≡◌, ◌≢◌, ◌⊎◌, ap, refl, subst, Option, none, some, [], ◌∷◌, arith, if◌then◌else◌,
}
use mileage_core.Base.Int.{ℤ, pos, ◌+ℤ◌, ◌-ℤ◌}
use mileage_core.Base.Int64.{wrap64}
use mileage_core.Mysql.Contract.{TxView}
use mileage_core.Mysql.Commit.{Committed, IsCommitError, run_in_tx_lem}
use mileage_core.Errors.{errors_is}
use mileage_core.Effect.{Outcome, returns, fails, pure, Ensures, returned}
use mileage_core.Domain.Account.{grant, redeem}
use mileage_core.Mysql.Rows.{AccountRow}
use mileage_core.Mysql.Tx.{background, run_in_tx, finish}
use mileage_core.Mysql.MileageRepository.{
  get_account, update_balance, insert_transaction, find_transaction_by_idempotency_key,
  insert_error,
}
use mileage_core.Cache.{invalidate_balance, balance_key}
use mileage_core.Tables.{Tables, find_row}
use mileage_core.Usecase.Posting.{
  PostingInput, PostingOutput, Flow, grant_flow, redeem_flow, record_posting, post_account, post,
  execute_in_tx, attempts, replay, proceed, execute,
}
use mileage_core.Usecase.Posting.Attempts.{Unposted}
use mileage_core.Usecase.Posting.Execute.{Owned, Answered, execute_lem}
use mileage_core.Usecase.Posting.Ledger.{grant_flow-ChangesBySigned}
use mileage_core.Usecase.Posting.Invariant.{execute-IsConsistent}
use mileage_core.Tables.Ledger.{IsConsistent, total}
use mileage_core.Tests.Server.{memory_server}
use text.Mathlib.TextEquality.{eq_iff}
use mileage_core.Tests.Memory.{
  Memory, memory, is_free, write, insert_into, update_if, update_at, exec, commit_if, row_if,
  account_reply, get_account_row, get_transaction_row, dropped, next_id,
}

abbrev pub alice_row : AccountRow
alice_row = record { user_id = "alice"; balance = pos 0; version = pos 0; updated_at = none }

abbrev pub start : Memory
start = record {
  tables = record {
    accounts = λ u. if str_eq "alice" u then some alice_row else none;
    transactions = [];
  };
  writes = [];
  cache = [];
  ids = "01A" ∷ "01B" ∷ "01C" ∷ [];
  users = λ e. none;
  events = [];
}

abbrev pub request : String → ℤ → PostingInput
request key amount = record {
  user_id = "alice";
  amount = amount;
  reason = "";
  idempotency_key = key;
  request_id = "";
}

run : Flow → PostingInput → Memory → Outcome Memory PostingOutput
unfolding execute proceed replay attempts execute_in_tx post post_account record_posting run_in_tx
    finish get_account update_balance insert_transaction find_transaction_by_idempotency_key
    insert_error invalidate_balance balance_key grant redeem errors_is find_row is_free write
    insert_into update_if update_at exec commit_if row_if account_reply get_account_row
    get_transaction_row dropped next_id ◌+ℤ◌ ◌-ℤ◌ wrap64
run flow input = execute memory flow background input

abbrev result : Outcome Memory PostingOutput → Option PostingOutput
result (returns out m) = some out
result _ = none

abbrev world : Outcome Memory PostingOutput → Memory
world (returns out m) = m
world (fails e m) = m
world (Outcome.panics m) = m

abbrev granted : Memory
granted = world (run grant_flow (request "k" (pos 100)) start)

first_grant :
    result (run grant_flow (request "k" (pos 100)) start)
    ≡ some (record { transaction_id = "01A"; balance = pos 100; version = pos 1 })
unfolding run
first_grant = refl

-- The same key and amount: the first answer again. The same key and another amount: refused.
repeated_grant :
    result (run grant_flow (request "k" (pos 100)) granted)
    ≡ some (record { transaction_id = "01A"; balance = pos 100; version = pos 1 })
unfolding run
repeated_grant = refl

other_amount : result (run grant_flow (request "k" (pos 7)) granted) ≡ none
unfolding run
other_amount = refl

-- The key of a grant is free for a redemption.
redeemed :
    result (run redeem_flow (request "k" (pos 30)) granted)
    ≡ some (record { transaction_id = "01B"; balance = pos 70; version = pos 2 })
unfolding run
redeemed = refl

overdrawn : result (run redeem_flow (request "k" (pos 101)) granted) ≡ none
unfolding run
overdrawn = refl

pub start-IsConsistent : IsConsistent str_eq start.tables
unfolding total wrap64
start-IsConsistent = record {
  congruent = λ u v e. ground (arith, eq_iff "alice" u, eq_iff "alice" v, eq_iff u v);
  keyed = λ u r e. ground (arith, eq_iff "alice" u);
  balanced = λ u. ground arith;
  distinct = tt;
}

pub Owned-subst :
    (flow : Flow) (input : PostingInput) (a b : Tables)
    → a ≡ b
    → Owned memory memory_server flow input a
    → Owned memory memory_server flow input b
Owned-subst flow input a b e own = subst (Owned memory memory_server flow input) e own

pub account_kept :
    (user : String) (a b : Tables) → a ≡ b → a.accounts user ≢ none → b.accounts user ≢ none
account_kept user a b e own = subst (λ (t : Tables). t.accounts user ≢ none) e own

pub start-Owned :
    (flow : Flow) (input : PostingInput) → Owned memory memory_server flow input start.tables
unfolding find_row
start-Owned flow input row held = cc

execute_lem_example :
    Ensures
      (Answered memory memory_server grant_flow (request "k" (pos 100)) start)
      (Unposted memory memory_server grant_flow (request "k" (pos 100)) start)
      (execute memory grant_flow background (request "k" (pos 100)) start)
execute_lem_example =
    execute_lem memory memory_server grant_flow (request "k" (pos 100))
      (Owned-subst grant_flow (request "k" (pos 100))) (account_kept "alice") start
      (start-Owned grant_flow (request "k" (pos 100)))

execute-IsConsistent_example :
    Ensures
      (λ out (w : Memory). IsConsistent str_eq w.tables)
      (λ e (w : Memory). IsConsistent str_eq w.tables)
      (execute memory grant_flow background (request "k" (pos 100)) start)
execute-IsConsistent_example =
    execute-IsConsistent memory memory_server grant_flow grant_flow-ChangesBySigned
      (λ a b e c. subst (IsConsistent str_eq) e c) (request "k" (pos 100))
      (Owned-subst grant_flow (request "k" (pos 100))) (account_kept "alice") start
      (start-Owned grant_flow (request "k" (pos 100))) start-IsConsistent

-- A transaction that does nothing: it has no writes at its end.
run_in_tx_lem_example :
    Ensures
      (Committed memory memory_server (λ (a : String) xs t. xs ≡ []) start)
      (λ e (w : Memory).
        (start.tables ≡ w.tables)
        ⊎ ((a : String) × IsCommitError memory memory_server e
            × Committed memory memory_server (λ (a : String) xs t. xs ≡ []) start a w))
      (run_in_tx memory background (λ ctx. pure "done") start)
run_in_tx_lem_example =
    run_in_tx_lem memory memory_server (λ (a : String) xs t. xs ≡ []) background
      (λ ctx. pure "done") start (λ t v fresh. returned (refl, ap (λ (x : TxView). x.writes) fresh))
