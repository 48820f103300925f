-- ===== src/Usecase/Posting/Execute.antt =====
-- Execute of the grant and redeem usecases, against the contract of the database.
use text.Mathlib.Text.{◌==◌ as str_eq}
use mileage_core.Base.{◌≡◌, ◌≢◌, refl, ◌⊎◌, inl, inr, Option, none, some, Bool-cases}
use mileage_core.Base.Int.{pos, leb_ℤ, eqb_ℤ, eqb_ℤ→eq}
use mileage_core.Errors.{wrapped}
use mileage_core.Effect.{
  follow, Ensures, returned, failed, Ensures-follow, Ensures-weaken, Ensures-change_error,
}
use mileage_core.Domain.{MileageTransaction}
use mileage_core.Domain.Account.{MileageAccount}
use mileage_core.Mysql.Rows.{AccountRow, TransactionRow, to_domain}
use mileage_core.Mysql.Tx.{background}
use mileage_core.Mysql.Contract.{Server}
use mileage_core.Mysql.Effects.{
  FoundAccount, FoundTransaction, get_account-background, find_transaction_lem,
}
use mileage_core.Platform.{Platform}
use mileage_core.Tables.{Tables, find_row}
use mileage_core.Usecase.Posting.{
  PostingInput, PostingOutput, Flow, max_retries, attempts, account_output, replay, invalidated,
  proceed, execute,
}
use mileage_core.Usecase.Posting.Attempts.{
  Effected, Unposted, later, attempt_lem, attempts_lem, invalidated_lem, later_effect,
}

module _ (p : Platform) (s : Server p) (flow : Flow) where
  open p use {World, Tx}
  open s use {committed, view, same, Others}

  module _ (input : PostingInput) where
    -- The answer that repeats an earlier posting under the same key: the tables are left to others.
    pub record Replayed (w : World) (out : PostingOutput) (w' : World) : Type 0 where
      pub seen : Tables
      pub row : TransactionRow
      pub account : AccountRow
      pub before : Others (committed w) seen
      pub after : Others seen (committed w')
      pub held :
          find_row same input.user_id input.idempotency_key flow.kind seen.transactions ≡ some row
      pub same_amount : row.amount ≡ input.amount
      pub stored : (committed w').accounts input.user_id ≡ some account
      pub answer :
          out
          ≡ record { transaction_id = row.id; balance = account.balance; version = account.version }

    -- A result is a posting of this call, or the repeated answer to an earlier one.
    abbrev pub Answered : World → PostingOutput → World → Type 0
    Answered w out w' = Replayed w out w' ⊎ Effected p s flow input w out w'

    -- A transaction on record has an account.
    abbrev pub Owned : Tables → Type 0
    Owned t =
        (row : TransactionRow)
        → find_row same input.user_id input.idempotency_key flow.kind t.transactions ≡ some row
        → t.accounts input.user_id ≢ none

    module _ (owned_kept : (a b : Tables) → Others a b → Owned a → Owned b)
        (account_kept : (a b : Tables)
          → Others a b
          → a.accounts input.user_id ≢ none
          → b.accounts input.user_id ≢ none) where
      account_output_lem :
          (w v v' : World) (row : TransactionRow) (found : Option MileageAccount)
          → Others (committed w) (committed v)
          → Owned (committed v)
          → find_row same input.user_id input.idempotency_key flow.kind (committed v).transactions
            ≡ some row
          → row.amount ≡ input.amount
          → Others (committed v) (committed v')
          → FoundAccount p s input.user_id (committed v') found
          → Ensures (Replayed w) (Unposted p s flow input w) (account_output p flow row.id found v')
      account_output_lem w v v' row none o own held same_amount o' absent =
          absurd (account_kept _ _ o' (own row held) absent)
      account_output_lem w v v' row (some a) o own held same_amount o' (account, is, shown) =
          returned (record {
            seen = committed v;
            row = row;
            account = account;
            before = o;
            after = o';
            held = held;
            same_amount = same_amount;
            stored = shown.0;
            answer = rw is refl;
          })

      replay_lem :
          (w v : World) (row : TransactionRow)
          → Others (committed w) (committed v)
          → Owned (committed v)
          → find_row same input.user_id input.idempotency_key flow.kind (committed v).transactions
            ≡ some row
          → Ensures
              (Replayed w)
              (Unposted p s flow input w)
              (replay p flow background input (to_domain row) v)
      unfolding replay
      replay_lem w v row o own held = elim (Bool-cases (eqb_ℤ row.amount input.amount)) [
        | inr differs ↦ rw differs (failed (inl o))
        | inl equal ↦ rw equal (
            Ensures-follow
              (Ensures-change_error (wrapped "get account for idempotent response")
                (get_account-background p s input.user_id v) (λ e v' o'. o'))
              _
              (λ found v' h.
                account_output_lem w v v' row found o own held (eqb_ℤ→eq _ _ equal) h.0 h.1)
              (λ e v' o'. inl (s.others_trans _ _ _ o o')))
      ]

      attempted_lem :
          (w v : World)
          → Others (committed w) (committed v)
          → Ensures (Answered w) (Unposted p s flow input w) (
              follow
                (attempts p flow max_retries none background input v)
                (invalidated p flow input))
      attempted_lem w v o =
          Ensures-follow
            (attempt_lem p s flow input 2 none background v
              (λ e u. attempts_lem p s flow input 2 e background u))
            (invalidated p flow input)
            (λ out u h.
              Ensures-weaken
                (invalidated_lem p s flow input w u out (later_effect p s flow input w v u out o h))
                (λ out' u' k. inr k) (λ e u' k. k))
            (λ e u h. later p s flow input w v u e o h)

      proceed_lem :
          (w v : World) (found : Option MileageTransaction)
          → Others (committed w) (committed v)
          → Owned (committed v)
          → FoundTransaction p s input.user_id input.idempotency_key flow.kind (committed v) found
          → Ensures
              (Answered w)
              (Unposted p s flow input w)
              (proceed p flow background input found v)
      unfolding proceed
      proceed_lem w v none o own absent = attempted_lem w v o
      proceed_lem w v (some m) o own (row, is, held) =
          rw is (Ensures-weaken (replay_lem w v row o own held) (λ out u k. inl k) (λ e u k. k))

      -- If a transaction on record under the request's key has its account when the call begins, and
      -- other clients keep that so and never remove the account, Execute does not panic. Its result is
      -- that of one posting, applied at one point, or the repeated answer to the transaction that holds
      -- the key with the same amount. Its error means that nobody but other clients has changed the
      -- tables, unless it is the error of a commit whose posting was applied all the same.
      pub execute_lem :
          (w : World)
          → Owned (committed w)
          → Ensures (Answered w) (Unposted p s flow input w) (execute p flow background input w)
      unfolding execute
      execute_lem w own = elim (Bool-cases (leb_ℤ input.amount (pos 0))) [
        | inl bad ↦ rw bad (failed (inl (s.others_refl _)))
        | inr good ↦ elim (Bool-cases (str_eq input.idempotency_key "")) [
          | inl empty ↦ rw (good, empty) (failed (inl (s.others_refl _)))
          | inr given ↦
              rw (good, given)
                (Ensures-follow
                  (Ensures-change_error (wrapped "check idempotency")
                    (find_transaction_lem p s input.user_id input.idempotency_key flow.kind w)
                    (λ e v o. inl o))
                  _ (λ found v h. proceed_lem w v found h.0 (owned_kept _ _ h.0 own) h.1)
                  (λ e v h. h))
        ]
      ]
