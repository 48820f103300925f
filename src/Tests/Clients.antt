-- ===== src/Tests/Clients.antt =====
-- Clients on the memory platform: an account is opened, then points are granted to it.
use text.Mathlib.Text.{◌==◌ as str_eq}
use text.Mathlib.TextEquality.{eq_iff}
use mileage_core.Base.{
  String, ◌≡◌, refl, inl, inr, none, [], ◌∷◌, List, arith, true, subst, ◌-◌, ◌^◌,
}
use mileage_core.Base.Int.{pos, ◌+ℤ◌, ◌≤ℤ◌}
use mileage_core.Base.Int64.{wrap64}
use mileage_core.Effect.{Ensures}
use mileage_core.Domain.Account.{grant}
use mileage_core.Mysql.Tx.{background}
use mileage_core.Mysql.Rows.{AccountRow, account_of}
use mileage_core.Mysql.Contract.{row_of, updated_row}
use mileage_core.Tables.{Tables, Write, insert_row, update_row, find_row, apply_all}
use mileage_core.Tables.Ledger.{balance_of, total}
use mileage_core.Usecase.Posting.{
  PostingInput, PostingOutput, grant_flow, redeem_flow, execute, transaction_of,
}
use mileage_core.Usecase.Posting.Transaction.{Posted}
use mileage_core.Usecase.Posting.Clients.{posting, opening, opened, Reach, here, next, Reach-of}
use mileage_core.Usecase.Posting.Clients.Guarantee.{Guaranteed, execute-Solvent}
use mileage_core.Usecase.Posting.Clients.Books.{IsSound, Reach-IsSound, count}
use mileage_core.Usecase.Posting.Clients.Execution.{Stepped, execute-Reach}
use mileage_core.Usecase.Posting.Clients.Linearized.{Answers, Fails, execute-Linearized}
use mileage_core.Usecase.Posting.Clients.Solvent.{IsExact, Solvent, grants}
use mileage_core.Usecase.Posting.Clients.Overdraft.{never_overdrawn}
use mileage_core.Tests.Memory.{memory}
use mileage_core.Tests.Server.{memory_server}
use mileage_core.Tests.Posting.{start, request, start-IsConsistent}

pub start-IsSound : IsSound str_eq start.tables
unfolding count find_row
start-IsSound = record {
  consistent = start-IsConsistent;
  counted = λ u. ground arith;
  owned = λ user key kind row held. cc;
}

execute-Reach_example :
    Ensures
      (λ out w. Stepped memory memory_server start w)
      (λ e w. Stepped memory memory_server start w)
      (execute memory grant_flow background (request "k" (pos 100)) start)
execute-Reach_example =
    execute-Reach memory memory_server (λ a b same. Reach-of str_eq same) grant_flow (inl refl)
      (request "k" (pos 100)) start start-IsSound

abbrev bob_row : AccountRow
bob_row = record { user_id = "bob"; balance = pos 0; version = pos 0; updated_at = none }

abbrev with_bob : Tables
with_bob = opened str_eq bob_row start.tables

abbrev gift : PostingInput
gift = record {
  user_id = "bob";
  amount = pos 100;
  reason = "";
  idempotency_key = "k";
  request_id = "";
}

abbrev answer : PostingOutput
answer = record { transaction_id = "01A"; balance = pos 100; version = pos 1 }

abbrev gift_writes : List Write
gift_writes =
    insert_row (row_of (transaction_of grant_flow.kind gift "01A") none)
    ∷ update_row "bob" (updated_row bob_row (pos 100) none)
    ∷ []

gift-Posted : Posted grant_flow gift answer gift_writes with_bob
unfolding grant ◌+ℤ◌ wrap64
gift-Posted = record {
  row = bob_row;
  changed = (grant (account_of bob_row) (pos 100)).1;
  created = none;
  updated = none;
  stored = refl;
  balance_range = ground arith;
  version_range = ground arith;
  accepted = refl;
  answer = refl;
  written = refl;
}

abbrev with_gift : Tables
with_gift = apply_all str_eq gift_writes with_bob

bob_free : (u : String) → str_eq "bob" u ≡ true → start.tables.accounts u ≡ none
bob_free u is = subst (λ v. start.tables.accounts v ≡ none) ((eq_iff "bob" u).0 is) refl

story : Reach str_eq start.tables with_gift
unfolding find_row
story =
    next (next here (opening bob_row refl refl bob_free refl))
      (posting grant_flow gift answer gift_writes (inl refl) gift-Posted refl refl)

Reach-IsSound_example : IsSound str_eq with_gift
Reach-IsSound_example =
    Reach-IsSound str_eq memory_server.same_symm memory_server.same_trans story start-IsSound

pub start-Solvent : (u : String) → Solvent str_eq start.tables u
unfolding total grants
start-Solvent u = ground arith

start_zero : (u : String) → balance_of (start.tables.accounts u) ≡ pos 0
start_zero u = ground arith

bob_fits : grants str_eq "bob" with_gift.transactions ≤ℤ pos (2 ^ 63 - 1)
unfolding grants ◌+ℤ◌
bob_fits = ground arith

never_overdrawn_example :
    IsExact str_eq
      (balance_of (with_gift.accounts "bob"))
      (total str_eq "bob" with_gift.transactions)
      (grants str_eq "bob" with_gift.transactions)
never_overdrawn_example =
    never_overdrawn str_eq memory_server.same_symm memory_server.same_trans refl start_zero story
      "bob" bob_fits

execute-Solvent_example :
    Ensures
      (λ out w. Guaranteed memory memory_server start w)
      (λ e w. Guaranteed memory memory_server start w)
      (execute memory redeem_flow background (request "k" (pos 100)) start)
execute-Solvent_example =
    execute-Solvent memory memory_server (λ a b same. Reach-of str_eq same) redeem_flow (inr refl)
      (request "k" (pos 100)) start start-IsSound start-Solvent

-- The memory platform has no other client.
alone : (a b : Tables) → memory_server.Others a b → Reach str_eq a b
alone a b is = Reach-of str_eq is

execute-Linearized_example :
    Ensures
      (λ out w.
        Answers memory memory_server alone grant_flow
          (inl refl)
          (request "k" (pos 100))
          start
          out
          w)
      (λ e w.
        Fails memory memory_server alone grant_flow (inl refl) (request "k" (pos 100)) start e w)
      (execute memory grant_flow background (request "k" (pos 100)) start)
execute-Linearized_example =
    execute-Linearized memory memory_server alone grant_flow (inl refl) (request "k" (pos 100))
      start start-IsSound
