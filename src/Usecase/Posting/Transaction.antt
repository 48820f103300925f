-- ===== src/Usecase/Posting/Transaction.antt =====
-- One attempt of a grant or a redemption: the closure of executeInTx, and executeInTx.
use mileage_core.Base.{
  ℕ, String, ◌≡◌, refl, sym, ap, ◌∙◌, ◌⊎◌, inl, inr, Option, none, some, List, [], ◌∷◌, ◌++◌,
  Option-cases,
}
use mileage_core.Base.Int.{pos, ◌+ℤ◌}
use mileage_core.Base.Int64.{IsInt64}
use mileage_core.Errors.{wrapped}
use mileage_core.Effect.{
  ◌>>=◌, follow, Ensures, returned, failed, Ensures-follow, Ensures-change_error,
}
use mileage_core.Domain.Account.{MileageAccount}
use mileage_core.Mysql.Rows.{AccountRow, account_of}
use mileage_core.Mysql.Tx.{Context, with_tx}
use mileage_core.Mysql.Contract.{Server, TxView, new_view, row_of, updated_row}
use mileage_core.Mysql.Effects.{
  Shown, FoundAccount, get_account-with_tx, insert_transaction_lem, update_balance_lem,
}
use mileage_core.Mysql.Commit.{Committed, IsCommitError, run_in_tx_lem}
use mileage_core.Platform.{Platform}
use mileage_core.Tables.{Tables, Write, insert_row, update_row}
use mileage_core.Usecase.Posting.{
  PostingInput, PostingOutput, Flow, transaction_of, required, insertion_error, record_posting,
  post_account, post, execute_in_tx,
}

-- What an attempt has written when it succeeds: the transaction's row, and the account with the
-- balance that the domain computed from the row that is still stored.
pub record Posted (flow : Flow) (input : PostingInput) (out : PostingOutput) (writes : List Write)
    (t : Tables) : Type 0 where
  pub row : AccountRow
  pub changed : MileageAccount
  pub created : Option ℕ
  pub updated : Option ℕ
  pub stored : t.accounts input.user_id ≡ some row
  pub balance_range : IsInt64 row.balance
  pub version_range : IsInt64 (row.version +ℤ pos 1)
  pub accepted : flow.change (account_of row) input.amount ≡ (none, changed)
  pub answer : out ≡ record {
    transaction_id = out.transaction_id;
    balance = changed.balance;
    version = changed.version;
  }
  pub written :
      writes
      ≡ insert_row (row_of (transaction_of flow.kind input out.transaction_id) created)
        ∷ update_row input.user_id (updated_row row changed.balance updated)
        ∷ []

module _ (p : Platform) (s : Server p) (flow : Flow) where
  open p use {World, Tx}
  open s use {committed, view, same, Others}

  module _ (ctx : Context Tx) (t : Tx) (input : PostingInput) where
    abbrev Staged : World → PostingOutput → World → Type 0
    Staged w out w' =
        Others (committed w) (committed w')
        × Posted flow input out (view t w').writes (committed w')

    record_posting_lem :
        (w v : World) (read : Tables) (row : AccountRow) (changed : MileageAccount) (id : String)
        → Others (committed w) read
        → Shown p s input.user_id read row
        → flow.change (account_of row) input.amount ≡ (none, changed)
        → Others read (committed v)
        → (view t v).writes ≡ []
        → Ensures
            (Staged w)
            (λ e w'. Others (committed w) (committed w'))
            (record_posting p flow (with_tx ctx t) input row.version changed id v)
    unfolding record_posting
    record_posting_lem w v read row changed id to_read shown accepted from_read clean =
        Ensures-follow
          (Ensures-change_error insertion_error
            (insert_transaction_lem p s ctx t (transaction_of flow.kind input id) v)
            (λ e w' h. upto w' h))
          _
          (λ u w₁ h₁.
            Ensures-follow
              (update_balance_lem p s ctx t input.user_id changed.balance row.version w₁) _
              (λ u w₂ h₂. returned (staged w₁ w₂ h₁.0 h₁.1.0 h₁.1.1 h₂.0 h₂.1))
              (λ e w₂ h₂. upto w₂ (s.others_trans _ _ _ h₁.0 h₂)))
          (λ e w' h. h)
      where
        upto :
            (w' : World) → Others (committed v) (committed w') → Others (committed w) (committed w')
        upto w' h = s.others_trans _ _ _ to_read (s.others_trans _ _ _ from_read h)

        staged :
            (w₁ w₂ : World)
            → Others (committed v) (committed w₁)
            → (created : Option ℕ)
            → (view t w₁).writes
              ≡ (view t v).writes
                ++ (insert_row (row_of (transaction_of flow.kind input id) created) ∷ [])
            → Others (committed w₁) (committed w₂)
            → ((latest : AccountRow) × (updated : Option ℕ) × ((committed w₂).accounts input.user_id
                  ≡ some latest)
                × (latest.version ≡ row.version)
                × IsInt64 (latest.version +ℤ pos 1)
                × ((view t w₂).writes
                    ≡ (view t w₁).writes
                      ++ (update_row input.user_id (updated_row latest changed.balance updated)
                          ∷ [])))
            → Staged w
                (record {
                  transaction_id = id;
                  balance = changed.balance;
                  version = changed.version;
                })
                w₂
        staged w₁ w₂ o₁ created wrote₁ o₂ (latest, updated, stored, at_version, range, wrote₂) =
            let o : Others (committed v) (committed w₂) = s.others_trans _ _ _ o₁ o₂ in
            let unchanged : row ≡ latest =
              s.others_versioned read (committed w₂) input.user_id row latest
                (s.others_trans _ _ _ from_read o) shown.0 stored (sym at_version) in
            (
              upto w₂ o,
              record {
                row = row;
                changed = changed;
                created = created;
                updated = updated;
                stored = rw unchanged stored;
                balance_range = shown.1;
                version_range = rw unchanged range;
                accepted = accepted;
                answer = refl;
                written = wrote₂ ∙ (rw (wrote₁, clean, unchanged));
              },
            )

    post_account_lem :
        (w v : World) (row : AccountRow)
        → Others (committed w) (committed v)
        → (view t v).writes ≡ []
        → Shown p s input.user_id (committed v) row
        → Ensures
            (Staged w)
            (λ e w'. Others (committed w) (committed w'))
            (post_account p flow (with_tx ctx t) input (account_of row) v)
    unfolding post_account
    post_account_lem w v row others clean shown =
        elim (Option-cases (flow.change (account_of row) input.amount).0) [
          | inl ok ↦ rw ok (
              record_posting_lem w (p.new_ulid v).1 (committed v) row _ (p.new_ulid v).0 others
                shown (λ i. (ok i, (flow.change (account_of row) input.amount).1)) (s.ulid_law v).0
                (ap (λ (x : TxView). x.writes) ((s.ulid_law v).1 t) ∙ clean))
          | inr (e, refused) ↦ rw refused (failed others)
        ]

    account_lem :
        (w v : World) (found : Option MileageAccount)
        → Others (committed w) (committed v)
        → (view t v).writes ≡ []
        → FoundAccount p s input.user_id (committed v) found
        → Ensures
            (Staged w)
            (λ e w'. Others (committed w) (committed w'))
            (follow (required found v) (post_account p flow (with_tx ctx t) input))
    account_lem w v none others clean absent = failed others
    account_lem w v (some a) others clean (row, e, shown) =
        rw e (post_account_lem w v row others clean shown)

    -- The closure ends in a posting, or in an error; meanwhile only others change the tables.
    pub post_lem :
        (w : World)
        → view t w ≡ new_view
        → Ensures
            (Staged w)
            (λ e w'. Others (committed w) (committed w'))
            (post p flow input (with_tx ctx t) w)
    unfolding post
    post_lem w fresh =
        Ensures-follow
          (Ensures-change_error (wrapped "get account")
            (get_account-with_tx p s ctx t input.user_id w fresh) (λ e w' h. h.0))
          (λ found. required found >>= post_account p flow (with_tx ctx t) input)
          (λ found w' h. account_lem w w' found h.0.0 h.0.1 h.1) (λ e w' h. h)

  -- executeInTx: a result is a posting that has been applied.
  pub execute_in_tx_lem :
      (ctx : Context Tx) (input : PostingInput) (w : World)
      → Ensures
          (Committed p s (Posted flow input) w)
          (λ e w'.
            Others (committed w) (committed w')
            ⊎ ((out : PostingOutput) × IsCommitError p s e
                × Committed p s (Posted flow input) w out w'))
          (execute_in_tx p flow ctx input w)
  unfolding execute_in_tx
  execute_in_tx_lem ctx input w =
      run_in_tx_lem p s (Posted flow input) ctx (post p flow input) w
        (λ t v fresh. post_lem ctx t input v fresh)
