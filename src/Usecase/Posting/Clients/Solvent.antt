-- ===== src/Usecase/Posting/Clients/Solvent.antt =====
-- Overdrafts under the steps of the clients: a user's balance, the sum of the user's transactions and
-- the sum of the grants among them.
use text.Mathlib.Text.{◌==◌ as str_eq}
use mileage_core.Base.{
  String, Bool, true, ◌≡◌, refl, sym, ap, ◌∙◌, ◌-◌, ◌^◌, inl, inr, none, some, Option, List, [],
  ◌∷◌, Bool-cases, arith, if◌then◌else◌,
}
use mileage_core.Base.Int.{ℤ, pos, ◌+ℤ◌, ◌-ℤ◌, ◌≤ℤ◌, ◌<ℤ◌, int_laws, eq_of_parts}
use mileage_core.Base.Int64.{wrap64, wrap64_self}
use mileage_core.Errors.{Error}
use mileage_core.Domain.{transaction_type_grant}
use mileage_core.Domain.Account.{MileageAccount, grant, redeem}
use mileage_core.Mysql.Rows.{TransactionRow, account_of}
use mileage_core.Tables.{Tables, Write}
use mileage_core.Tables.Ledger.{signed, balance_of, total}
use mileage_core.Usecase.Posting.{PostingInput, PostingOutput, Flow, grant_flow, redeem_flow}
use mileage_core.Usecase.Posting.Transaction.{Posted}
use mileage_core.Usecase.Posting.Ledger.{same-congruent}
use mileage_core.Usecase.Posting.Clients.{IsUsecase, Step, posting, opening, Reach, here, next}
use mileage_core.Usecase.Posting.Clients.Kept.{posting-result, next_row, posted_row}

-- What a transaction grants.
abbrev pub granted : String → ℤ → ℤ
granted kind amount = if str_eq kind transaction_type_grant then amount else pos 0

module _ (same : String → String → Bool) where
  -- The sum of the grants to a user.
  unfoldable pub grants : String → List TransactionRow → ℤ
  grants user [] = pos 0
  grants user (r ∷ rs) =
      let rest = grants user rs in
      if same r.user_id user then granted r.kind r.amount +ℤ rest else rest

  -- A balance that is the exact sum, at or above zero, and covered by grants.
  abbrev pub IsExact : ℤ → ℤ → ℤ → Type 0
  IsExact balance sum all = (balance ≡ sum) × (pos 0 ≤ℤ sum) × (sum ≤ℤ all)

  abbrev pub Solvent : Tables → String → Type 0
  Solvent t u =
      (pos 0 ≤ℤ grants u t.transactions)
      × (grants u t.transactions ≤ℤ pos (2 ^ 63 - 1)
          → IsExact (balance_of (t.accounts u)) (total same u t.transactions)
              (grants u t.transactions))

-- What a method has checked when it reports no error.
grant_ok :
    (a : MileageAccount) (amount : ℤ)
    → (grant a amount).0 ≡ none
    → (pos 0 <ℤ amount) × ((grant a amount).1.balance ≡ wrap64 (a.balance +ℤ amount))
unfolding grant
grant_ok a amount ok = ground arith

redeem_ok :
    (a : MileageAccount) (amount : ℤ)
    → (redeem a amount).0 ≡ none
    → (pos 0 <ℤ amount)
      × (amount ≤ℤ a.balance)
      × ((redeem a amount).1.balance ≡ wrap64 (a.balance -ℤ amount))
unfolding redeem
redeem_ok a amount ok = ground arith

-- One posting to an account whose balance is the exact sum.
abbrev Keeps : Flow → ℤ → Type 0
Keeps flow amount =
    (a : MileageAccount) (sum all : ℤ)
    → (flow.change a amount).0 ≡ none
    → pos 0 ≤ℤ all
    → (all ≤ℤ pos (2 ^ 63 - 1) → (a.balance ≡ sum) × (pos 0 ≤ℤ sum) × (sum ≤ℤ all))
    → (pos 0 ≤ℤ granted flow.kind amount +ℤ all)
      × (granted flow.kind amount +ℤ all ≤ℤ pos (2 ^ 63 - 1)
          → ((flow.change a amount).1.balance ≡ signed flow.kind amount +ℤ sum)
            × (pos 0 ≤ℤ signed flow.kind amount +ℤ sum)
            × (signed flow.kind amount +ℤ sum ≤ℤ granted flow.kind amount +ℤ all))

grant_flow-Keeps : (amount : ℤ) → Keeps grant_flow amount
grant_flow-Keeps amount a sum all ok nonneg exact =
    let (positive, is) = grant_ok a amount ok in
    (
      omega int_laws,
      λ fits.
          let (now, low, high) = exact (omega int_laws) in
          (
            is
                ∙ (rw now (
                    wrap64_self (sum +ℤ amount) (omega int_laws)
                    ∙ eq_of_parts _ _ (omega int_laws))),
            omega int_laws,
            omega int_laws,
          ),
    )

redeem_flow-Keeps : (amount : ℤ) → Keeps redeem_flow amount
redeem_flow-Keeps amount a sum all ok nonneg exact =
    let (positive, enough, is) = redeem_ok a amount ok in
    (
      omega int_laws,
      λ fits.
          let (now, low, high) = exact (omega int_laws) in
          let covered : amount ≤ℤ sum = rw now at enough in
          (
            is
                ∙ (rw now (
                    wrap64_self (sum -ℤ amount) (omega int_laws)
                    ∙ eq_of_parts _ _ (omega int_laws))),
            omega int_laws,
            omega int_laws,
          ),
    )

IsUsecase-Keeps : (flow : Flow) → IsUsecase flow → (amount : ℤ) → Keeps flow amount
IsUsecase-Keeps flow (inl is) amount = rw is (grant_flow-Keeps amount)
IsUsecase-Keeps flow (inr is) amount = rw is (redeem_flow-Keeps amount)

module _ (same : String → String → Bool)
    (same_symm : (a b : String) → same a b ≡ true → same b a ≡ true)
    (same_trans : (a b c : String) → same a b ≡ true → same b c ≡ true → same a c ≡ true) where
  total-eq :
      (u v : String) (rs : List TransactionRow)
      → same u v ≡ true
      → (total same u rs ≡ total same v rs) × (grants same u rs ≡ grants same v rs)
  unfolding total grants
  total-eq u v [] e = (refl, refl)
  total-eq u v (r ∷ rs) e =
      let (left, right) = total-eq u v rs e in
      (
        rw (same-congruent same same_symm same_trans r.user_id u v e, left),
        rw (same-congruent same same_symm same_trans r.user_id u v e, right),
      )

  posting-Solvent :
      {flow : Flow} {input : PostingInput} {out : PostingOutput} {writes : List Write} {a : Tables}
      (posted : Posted flow input out writes a)
      → IsUsecase flow
      → ((u : String) → Solvent same a u)
      → (u : String)
      → Solvent same
          (record {
            accounts =
                λ u. if same input.user_id u then some (next_row same posted) else a.accounts u;
            transactions = posted_row same posted ∷ a.transactions;
          })
          u
  unfolding total grants
  posting-Solvent {flow} {input} {a = a} posted usecase h u =
      elim (Bool-cases (same input.user_id u)) [
        | inl mine ↦
            let (sums, all) = total-eq input.user_id u a.transactions mine in
            let kept =
              IsUsecase-Keeps flow usecase input.amount (account_of posted.row)
                (total same input.user_id a.transactions) (grants same input.user_id a.transactions)
                (ap (λ (o : Option Error × MileageAccount). o.0) posted.accepted)
                (h input.user_id).0
                (λ fits.
                  let (now, low, high) = (h input.user_id).1 fits in
                  (sym (ap balance_of posted.stored) ∙ now, low, high)) in
            rw (mine, ← sums, ← all)
              (
                kept.0,
                λ fits.
                    let (now, low, high) = kept.1 fits in
                    (
                      ap (λ (o : Option Error × MileageAccount). o.1.balance) (sym posted.accepted)
                          ∙ now,
                      low,
                      high,
                    ),
              )
        | inr theirs ↦ rw theirs (h u)
      ]

  Step-Solvent :
      {a b : Tables}
      → Step same a b
      → ((u : String) → Solvent same a u)
      → (u : String) → Solvent same b u
  Step-Solvent (posting flow input out writes usecase posted fresh is) h u =
      rw (posting-result same posted is) (posting-Solvent posted usecase h u)
  Step-Solvent (opening row balance version absent is) h u =
      rw is (elim (Bool-cases (same row.user_id u)) [
        | inl mine ↦
            rw (mine, balance)
              (
                (h u).0,
                λ fits.
                    let (now, low, high) = (h u).1 fits in
                    (sym (ap balance_of (absent u mine)) ∙ now, low, high),
              )
        | inr theirs ↦ rw theirs (h u)
      ])

  -- If every user is solvent, then every user is solvent after any interleaving of grants,
  -- redemptions and account creations.
  pub Reach-Solvent :
      {a b : Tables}
      → Reach same a b
      → ((u : String) → Solvent same a u)
      → (u : String) → Solvent same b u
  Reach-Solvent here h = h
  Reach-Solvent (next r st) h = Step-Solvent st (Reach-Solvent r h)
