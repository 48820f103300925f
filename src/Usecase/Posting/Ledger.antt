-- ===== src/Usecase/Posting/Ledger.antt =====
-- A posting keeps the tables consistent: balances stay the sums of the transactions.
use mileage_core.Base.{
  String, Bool, true, ◌≡◌, refl, sym, ap, ◌∙◌, inl, inr, Option, none, some, List, [], ◌∷◌,
  Bool-cases, arith,
}
use mileage_core.Base.Int.{ℤ, pos, ◌+ℤ◌, ◌-ℤ◌, int_laws}
use mileage_core.Base.Int64.{wrap64, wrap64-wrap64-add}
use mileage_core.Domain.Account.{MileageAccount, grant, redeem}
use mileage_core.Mysql.Rows.{AccountRow, TransactionRow, account_of}
use mileage_core.Mysql.Contract.{row_of, updated_row}
use mileage_core.Errors.{Error}
use mileage_core.Tables.{Tables, Write, insert_row, update_row, find_row, apply_all, AllLocked}
use mileage_core.Tables.Ledger.{IsConsistent, signed, balance_of, total}
use mileage_core.Usecase.Posting.{
  PostingInput, PostingOutput, Flow, grant_flow, redeem_flow, transaction_of,
}
use mileage_core.Usecase.Posting.Transaction.{Posted}

-- The flow changes a balance by the signed amount of its transaction, modulo 2^64.
abbrev pub ChangesBySigned : Flow → Type 0
ChangesBySigned flow =
    (a : MileageAccount) (amount : ℤ)
    → (flow.change a amount).0 ≡ none
    → (flow.change a amount).1.balance ≡ wrap64 (a.balance +ℤ signed flow.kind amount)

pub grant_flow-ChangesBySigned : ChangesBySigned grant_flow
unfolding grant
grant_flow-ChangesBySigned a amount h = ground arith

add_comm : (a b : ℤ) → a +ℤ b ≡ b +ℤ a
add_comm a b = omega int_laws

minus_lem : (a b : ℤ) → a -ℤ b ≡ a +ℤ (pos 0 -ℤ b)
minus_lem a b = omega int_laws

pub redeem_flow-ChangesBySigned : ChangesBySigned redeem_flow
unfolding redeem
redeem_flow-ChangesBySigned a amount h = ground (arith, minus_lem a.balance amount)

module _ (same : String → String → Bool)
    (same_symm : (a b : String) → same a b ≡ true → same b a ≡ true)
    (same_trans : (a b c : String) → same a b ≡ true → same b c ≡ true → same a c ≡ true) where
  -- Equal keys are equal to the same keys.
  pub same-congruent : (a u v : String) → same u v ≡ true → same a u ≡ same a v
  same-congruent a u v e = ground (arith, same_trans a u v, same_symm u v, same_trans a v u)

  total-congruent :
      (u v : String) (rs : List TransactionRow)
      → same u v ≡ true
      → total same u rs ≡ total same v rs
  unfolding total
  total-congruent u v [] e = refl
  total-congruent u v (r ∷ rs) e = rw (same-congruent r.user_id u v e, total-congruent u v rs e)

  -- One new transaction and the balance that includes it.
  module _ (point : Tables) (c : IsConsistent same point) (m : TransactionRow)
      (row next : AccountRow) (stored : point.accounts m.user_id ≡ some row)
      (keeps_user : next.user_id ≡ row.user_id)
      (adds : next.balance ≡ wrap64 (row.balance +ℤ signed m.kind m.amount))
      (fresh : find_row same m.user_id m.idempotency_key m.kind point.transactions ≡ none) where
    abbrev after : Tables
    after = apply_all same (insert_row m ∷ update_row m.user_id next ∷ []) point

    after-congruent : (u v : String) → same u v ≡ true → after.accounts u ≡ after.accounts v
    after-congruent u v e = rw (same-congruent m.user_id u v e) (ground (arith, c.congruent u v e))

    after-keyed :
        (u : String) (r : AccountRow) → after.accounts u ≡ some r → same r.user_id u ≡ true
    after-keyed u r h = elim (Bool-cases (same m.user_id u)) [
      | inl mine ↦
          let owner : same row.user_id u ≡ true =
            same_trans row.user_id m.user_id u (c.keyed m.user_id row stored) mine in
          let it : next ≡ r = ground arith in rw (← it, keeps_user) owner
      | inr theirs ↦ c.keyed u r (rw theirs at h)
    ]

    after-balanced :
        (u : String) → balance_of (after.accounts u) ≡ wrap64 (total same u after.transactions)
    unfolding total
    after-balanced u = elim (Bool-cases (same m.user_id u)) [
      | inl mine ↦
          let posted : row.balance ≡ wrap64 (total same u point.transactions) =
            sym (ap balance_of stored)
            ∙ c.balanced m.user_id
            ∙ ap wrap64 (total-congruent m.user_id u point.transactions mine) in
          rw (mine, adds, posted) (wrap64-wrap64-add _ _ ∙ ap wrap64 (add_comm _ _))
      | inr theirs ↦ rw (theirs) (c.balanced u)
    ]

    after-IsConsistent : IsConsistent same after
    after-IsConsistent = record {
      congruent = after-congruent;
      keyed = after-keyed;
      balanced = after-balanced;
      distinct = (fresh, c.distinct);
    }

  module _ (flow : Flow) (by_signed : ChangesBySigned flow) (input : PostingInput) where
    -- A posting that is applied at consistent tables leaves them consistent.
    pub apply_all-IsConsistent :
        {out : PostingOutput} {writes : List Write} {ending point : Tables}
        → Posted flow input out writes ending
        → AllLocked same ending point writes
        → IsConsistent same point
        → IsConsistent same (apply_all same writes point)
    apply_all-IsConsistent {out} {writes} {ending} {point} posted locked c =
        let (fresh, (kept, _)) : AllLocked same ending point (
            insert_row (row_of (transaction_of flow.kind input out.transaction_id) posted.created)
            ∷ update_row input.user_id
                (updated_row posted.row posted.changed.balance posted.updated)
            ∷ []) =
          rw posted.written at locked in
        rw posted.written (
          after-IsConsistent point c
            (row_of (transaction_of flow.kind input out.transaction_id) posted.created) posted.row
            (updated_row posted.row posted.changed.balance posted.updated) (kept ∙ posted.stored)
            refl
            (ap (λ (o : Option Error × MileageAccount). o.1.balance) (sym posted.accepted)
              ∙ by_signed (account_of posted.row) input.amount
                  (ap (λ (o : Option Error × MileageAccount). o.0) posted.accepted))
            fresh)
