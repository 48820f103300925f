-- ===== src/Usecase/Posting/Clients/Refinement.antt =====
-- The commits of the clients as requests to the machine, and Execute as one request among others.
use mileage_core.Base.{
  String, Bool, true, ◌≡◌, refl, sym, ap, ◌∙◌, ◌&&◌, inl, inr, none, some, List, [], ◌∷◌, ◌++◌,
  Bool-cases, arith,
}
use mileage_core.Base.Int.{ℤ, pos, ◌+ℤ◌}
use mileage_core.Base.Int64.{wrap64}
use mileage_core.Domain.Account.{MileageAccount, grant, redeem}
use mileage_core.Mysql.Rows.{AccountRow, account_of}
use mileage_core.Tables.{Tables, Write, find_row, apply_all}
use mileage_core.Tables.Ledger.{signed, balance_of}
use mileage_core.Usecase.Posting.{PostingInput, PostingOutput, Flow, grant_flow, redeem_flow}
use mileage_core.Usecase.Posting.Transaction.{Posted}
use mileage_core.Usecase.Posting.Clients.{
  IsUsecase, Step, posting, opening, opened, Reach, here, next,
}
use mileage_core.Usecase.Posting.Clients.Kept.{posting-result}
use mileage_core.Usecase.Posting.Clients.Books.{IsUsecase-ChangesBySigned}
use mileage_core.Usecase.Posting.Clients.Machine.{
  Machine, Request, request_of, accepts, machine_eq, recorded, post_once, run, run-append,
  machine_of,
}

-- The method reports no error only for what the machine accepts.
abbrev OnlyAccepted : Flow → Type 0
OnlyAccepted flow =
    (a : MileageAccount) (amount : ℤ)
    → (flow.change a amount).0 ≡ none
    → accepts flow.kind amount a.balance ≡ true

grant_flow-OnlyAccepted : OnlyAccepted grant_flow
unfolding grant
grant_flow-OnlyAccepted a amount ok = ground arith

redeem_flow-OnlyAccepted : OnlyAccepted redeem_flow
unfolding redeem
redeem_flow-OnlyAccepted a amount ok = ground arith

IsUsecase-OnlyAccepted : (flow : Flow) → IsUsecase flow → OnlyAccepted flow
IsUsecase-OnlyAccepted flow (inl is) = rw is grant_flow-OnlyAccepted
IsUsecase-OnlyAccepted flow (inr is) = rw is redeem_flow-OnlyAccepted

module _ (same : String → String → Bool) where
  module _ {a : Tables} {flow : Flow} {input : PostingInput} {out : PostingOutput}
      {writes : List Write} (usecase : IsUsecase flow) (posted : Posted flow input out writes a)
      (fresh : find_row same input.user_id input.idempotency_key flow.kind a.transactions
        ≡ none) where
    no_error : (flow.change (account_of posted.row) input.amount).0 ≡ none
    no_error = ap (λ o. o.0) posted.accepted

    stored_balance : balance_of (a.accounts input.user_id) ≡ posted.row.balance
    stored_balance = ap balance_of posted.stored

    post_once-accepted :
        post_once same (request_of flow input) (machine_of same a)
        ≡ recorded same (request_of flow input) (machine_of same a)
    post_once-accepted =
        rw
          (
            fresh,
            stored_balance,
            IsUsecase-OnlyAccepted flow usecase (account_of posted.row) input.amount no_error,
          )
          refl

    new_balance :
        posted.changed.balance
        ≡ wrap64 (balance_of (a.accounts input.user_id) +ℤ signed flow.kind input.amount)
    new_balance = rw stored_balance (
        ap (λ o. o.1.balance) (sym posted.accepted)
        ∙ IsUsecase-ChangesBySigned flow usecase (account_of posted.row) input.amount no_error)

    recorded-posting :
        {b : Tables}
        → b ≡ apply_all same writes a
        → machine_of same b ≡ recorded same (request_of flow input) (machine_of same a)
    unfolding find_row
    recorded-posting is = rw (posting-result same posted is) (
        machine_eq
          (λ u. elim (Bool-cases (same input.user_id u)) [
            | inl mine ↦ rw mine new_balance
            | inr theirs ↦ rw theirs refl
          ])
          (λ u key kind.
            elim (Bool-cases
              (same input.user_id u && (same input.idempotency_key key && same flow.kind kind))) [
                | inl own ↦ rw own refl
                | inr other ↦ rw other refl
              ]))

    -- A posting is its request to the machine.
    pub post_once-posting :
        {b : Tables}
        → b ≡ apply_all same writes a
        → machine_of same b ≡ post_once same (request_of flow input) (machine_of same a)
    post_once-posting is = recorded-posting is ∙ sym post_once-accepted

    -- After it the key is taken, and the balance is the one in the answer.
    pub posted_answer :
        {b : Tables}
        → same input.user_id input.user_id ≡ true
        → same input.idempotency_key input.idempotency_key ≡ true
        → same flow.kind flow.kind ≡ true
        → b ≡ apply_all same writes a
        → ((machine_of same b).posted input.user_id input.idempotency_key flow.kind
            ≡ some input.amount)
          × (out.balance ≡ (machine_of same b).balances input.user_id)
    unfolding find_row
    posted_answer user key kind is =
        rw (posting-result same posted is, user, key, kind)
          (refl, ap (λ (o : PostingOutput). o.balance) posted.answer)

  -- An account that is opened does not show in the machine.
  machine_of-opened :
      (a : Tables) (row : AccountRow)
      → row.balance ≡ pos 0
      → ((u : String) → same row.user_id u ≡ true → a.accounts u ≡ none)
      → machine_of same (opened same row a) ≡ machine_of same a
  machine_of-opened a row zero_balance absent =
      machine_eq
        (λ u. elim (Bool-cases (same row.user_id u)) [
          | inl mine ↦ rw (mine, absent u mine, zero_balance) refl
          | inr theirs ↦ rw theirs refl
        ])
        (λ u key kind. refl)

  -- Any number of requests to the machine.
  abbrev pub Runs : Machine → Machine → Type 0
  Runs m n = (requests : List Request) × (n ≡ run same requests m)

  Step-Runs : {a b : Tables} → Step same a b → Runs (machine_of same a) (machine_of same b)
  Step-Runs (posting flow input out writes usecase posted fresh is) =
      (request_of flow input ∷ [], post_once-posting usecase posted fresh is)
  Step-Runs (opening row balance version absent is) =
      ([], ap (machine_of same) is ∙ machine_of-opened _ row balance absent)

  pub Runs-trans : (m n o : Machine) → Runs m n → Runs n o → Runs m o
  Runs-trans m n o (early, first) (late, second) =
      (late ++ early, second ∙ ap (run same late) first ∙ sym (run-append same late early m))

  pub Reach-Runs : {a b : Tables} → Reach same a b → Runs (machine_of same a) (machine_of same b)
  Reach-Runs here = ([], refl)
  Reach-Runs (next r st) = Runs-trans _ _ _ (Reach-Runs r) (Step-Runs st)
