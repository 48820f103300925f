-- ===== src/Usecase/Posting/Success/Repeat.antt =====
-- A request that is repeated under its key, on a database that works, with no other client.
use mileage_core.Base.{
  ℕ, String, false, ◌≡◌, ◌≢◌, refl, sym, ap, ◌∙◌, subst, inl, inr, Option, none, some, [], ◌∷◌,
  arith,
}
use mileage_core.Base.Text.{text_differs}
use mileage_core.Base.Int.{ℤ, pos, ◌+ℤ◌, ◌<ℤ◌, leb_ℤ, eqb_ℤ_refl}
use mileage_core.Base.Int64.{IsInt64, wrap64, wrap64_self}
use mileage_core.Errors.{Error, wrapped}
use mileage_core.Effect.{Ensures, returned, Ensures-follow, Ensures-weaken, Ensures-change_error}
use mileage_core.Platform.{Platform}
use mileage_core.Domain.{MileageTransaction}
use mileage_core.Domain.Account.{MileageAccount, grant, redeem}
use mileage_core.Mysql.Rows.{AccountRow, TransactionRow, account_of, to_domain}
use mileage_core.Mysql.Tx.{background}
use mileage_core.Mysql.Contract.{Server, row_of, updated_row}
use mileage_core.Mysql.Effects.{
  FoundAccount, FoundTransaction, find_transaction_lem, get_account-background,
}
use mileage_core.Mysql.Calm.{
  Calm, Ensures-total, find_transaction-Works, get_account-background-Works,
}
use mileage_core.Tables.{Tables, insert_row, update_row, find_row, apply_all}
use mileage_core.Usecase.Posting.{
  PostingInput, PostingOutput, Flow, transaction_of, account_output, replay, proceed, execute,
}
use mileage_core.Usecase.Posting.Clients.{IsUsecase}
use mileage_core.Usecase.Posting.Success.{execute-Posts}
use mileage_core.Usecase.Posting.Success.Steps.{Ready}

grant_version :
    (a : MileageAccount) (amount : ℤ)
    → (grant a amount).0 ≡ none
    → (grant a amount).1.version ≡ wrap64 (a.version +ℤ pos 1)
unfolding grant
grant_version a amount ok = ground arith

redeem_version :
    (a : MileageAccount) (amount : ℤ)
    → (redeem a amount).0 ≡ none
    → (redeem a amount).1.version ≡ wrap64 (a.version +ℤ pos 1)
unfolding redeem
redeem_version a amount ok = ground arith

module _ (p : Platform) (s : Server p) (calm : Calm p s) (flow : Flow) (input : PostingInput) where
  open p use {World}
  open s use {committed, same}

  -- A transaction with this request's amount holds its key, and the account is there.
  pub record Recorded (held : TransactionRow) (account : AccountRow) (t : Tables) : Type 0 where
    pub found :
        find_row same input.user_id input.idempotency_key flow.kind t.transactions ≡ some held
    pub same_amount : held.amount ≡ input.amount
    pub stored : t.accounts input.user_id ≡ some account
    pub balance_range : IsInt64 account.balance
    pub version_range : IsInt64 account.version

  module _ (held : TransactionRow) (account : AccountRow) where
    -- The repeated answer, with the tables as they were.
    abbrev pub Repeats : World → PostingOutput → World → Type 0
    Repeats w out w' =
        (out ≡ record {
          transaction_id = held.id;
          balance = account.balance;
          version = account.version;
        })
        × (committed w ≡ committed w')

    output_lem :
        (w v : World) (found : Option MileageAccount)
        → committed w ≡ committed v
        → Recorded held account (committed v)
        → FoundAccount p s input.user_id (committed v) found
        → Ensures (Repeats w) (λ e v'. ⊥) (account_output p flow held.id found v)
    output_lem w v none same_tables recorded absent = absurd (cc recorded.stored)
    output_lem w v (some a) same_tables recorded (other, is, shown) =
        let it : other ≡ account = cc (shown.0, recorded.stored) in
        rw (is, it) (returned (refl, same_tables))

    replay-Repeats :
        (w v : World)
        → committed w ≡ committed v
        → Recorded held account (committed v)
        → Ensures (Repeats w) (λ e v'. ⊥) (replay p flow background input (to_domain held) v)
    unfolding replay
    replay-Repeats w v same_tables recorded =
        rw (recorded.same_amount, eqb_ℤ_refl input.amount)
          (Ensures-follow
            (Ensures-change_error (wrapped "get account for idempotent response")
              (Ensures-total
                (get_account-background-Works p s calm input.user_id v account recorded.stored
                  recorded.balance_range recorded.version_range)
                (get_account-background p s input.user_id v))
              (λ e v' b. b))
            _
            (λ found v' h.
              let here : committed v ≡ committed v' = calm.only_client _ _ h.0 in
              output_lem w v' found (same_tables ∙ here)
                (subst (Recorded held account) here recorded) h.1)
            (λ e v' b. b))

    proceed-Repeats :
        (w v : World) (found : Option MileageTransaction)
        → committed w ≡ committed v
        → Recorded held account (committed v)
        → FoundTransaction p s input.user_id input.idempotency_key flow.kind (committed v) found
        → Ensures (Repeats w) (λ e v'. ⊥) (proceed p flow background input found v)
    unfolding proceed
    proceed-Repeats w v none same_tables recorded absent = absurd (cc recorded.found)
    proceed-Repeats w v (some m) same_tables recorded (other, is, shown) =
        let it : other ≡ held = cc (shown, recorded.found) in
        rw (is, it) (replay-Repeats w v same_tables recorded)

    execute-Repeats :
        (w : World)
        → pos 0 <ℤ input.amount
        → input.idempotency_key ≢ ""
        → Recorded held account (committed w)
        → Ensures (Repeats w) (λ e w'. ⊥) (execute p flow background input w)
    unfolding execute
    execute-Repeats w positive keyed recorded =
        let good : leb_ℤ input.amount (pos 0) ≡ false = ground arith in
        rw (good, text_differs input.idempotency_key "" keyed)
          (Ensures-follow
            (Ensures-change_error (wrapped "check idempotency")
              (Ensures-total
                (find_transaction-Works p s calm input.user_id input.idempotency_key flow.kind w)
                (find_transaction_lem p s input.user_id input.idempotency_key flow.kind w))
              (λ e v b. b))
            _
            (λ found v h.
              let here : committed w ≡ committed v = calm.only_client _ _ h.0 in
              proceed-Repeats w v found here (subst (Recorded held account) here recorded) h.1)
            (λ e v b. b))

  -- The version after a posting is the next one.
  pub next_version :
      (row : AccountRow) (changed : MileageAccount)
      → IsUsecase flow
      → IsInt64 (row.version +ℤ pos 1)
      → flow.change (account_of row) input.amount ≡ (none, changed)
      → changed.version ≡ row.version +ℤ pos 1
  next_version row changed (inl is) range accepted =
      let granted : grant (account_of row) input.amount ≡ (none, changed) = rw is at accepted in
      ap (λ (o : Option Error × MileageAccount). o.1.version) (sym granted)
      ∙ grant_version (account_of row) input.amount
          (ap (λ (o : Option Error × MileageAccount). o.0) granted)
      ∙ wrap64_self _ range
  next_version row changed (inr is) range accepted =
      let redeemed : redeem (account_of row) input.amount ≡ (none, changed) = rw is at accepted in
      ap (λ (o : Option Error × MileageAccount). o.1.version) (sym redeemed)
      ∙ redeem_version (account_of row) input.amount
          (ap (λ (o : Option Error × MileageAccount). o.0) redeemed)
      ∙ wrap64_self _ range

  module _ (row : AccountRow) (changed : MileageAccount) where
    pub posted-Recorded :
        (a b : Tables) (id : String) (created updated : Option ℕ)
        → Ready p s calm flow input row changed a
        → b
          ≡ apply_all same
              (insert_row (row_of (transaction_of flow.kind input id) created)
                ∷ update_row input.user_id (updated_row row changed.balance updated)
                ∷ [])
              a
        → Recorded
            (row_of (transaction_of flow.kind input id) created)
            (updated_row row changed.balance updated)
            b
    unfolding find_row
    posted-Recorded a b id created updated ready is = record {
      found =
          rw
            (
              is,
              s.same_refl input.user_id,
              s.same_refl input.idempotency_key,
              s.same_refl flow.kind,
            )
            refl;
      same_amount = refl;
      stored = rw (is, s.same_refl input.user_id) refl;
      balance_range = ready.changed_range;
      version_range = ready.next_range;
    }

    -- On a database that works, with no other client: when a grant or a redemption that can go
    -- through is called twice under its key, both calls return a result, the same one, and the
    -- second call leaves the tables as the first has left them.
    pub execute-twice :
        IsUsecase flow
        → (w : World) → pos 0 <ℤ input.amount
        → input.idempotency_key ≢ ""
        → Ready p s calm flow input row changed (committed w)
        → Ensures
            (λ out w'.
              Ensures
                (λ again v. (again ≡ out) × (committed w' ≡ committed v))
                (λ e v. ⊥)
                (execute p flow background input w'))
            (λ e w'. ⊥)
            (execute p flow background input w)
    execute-twice usecase w positive keyed ready =
        Ensures-weaken (execute-Posts p s calm flow input row changed w positive keyed ready)
          (λ out w' (balance, version, created, updated, is).
            Ensures-weaken
              (execute-Repeats _ _ w' positive keyed (
                posted-Recorded (committed w) (committed w') out.transaction_id created updated
                  ready is))
              (λ again v (answer, kept). (
                answer
                    ∙ same_answer out balance (
                        version ∙ next_version row changed usecase ready.next_range ready.accepted),
                kept,
              ))
              (λ e v b. b))
          (λ e w' b. b)
      where
        same_answer :
            (out : PostingOutput)
            → out.balance ≡ changed.balance
            → out.version ≡ row.version +ℤ pos 1
            → record {
              transaction_id = out.transaction_id;
              balance = changed.balance;
              version = row.version +ℤ pos 1;
            }
              ≡ out
        same_answer out balance version i = record {
          transaction_id = out.transaction_id;
          balance = sym balance i;
          version = sym version i;
        }
