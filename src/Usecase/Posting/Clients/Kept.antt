-- ===== src/Usecase/Posting/Clients/Kept.antt =====
-- Accounts and transactions under the steps of the clients.
use mileage_core.Base.{
  String, Bool, ◌≡◌, ◌≢◌, refl, sym, ap, ◌∙◌, none, some, List, [], ◌∷◌, ◌++◌, arith, if◌then◌else◌,
}
use mathlib.Core.List.{append_assoc}
use mileage_core.Mysql.Rows.{AccountRow, TransactionRow}
use mileage_core.Mysql.Contract.{row_of, updated_row}
use mileage_core.Tables.{Tables, Write, find_row, apply_all}
use mileage_core.Usecase.Posting.{PostingInput, PostingOutput, Flow, transaction_of}
use mileage_core.Usecase.Posting.Transaction.{Posted}
use mileage_core.Usecase.Posting.Clients.{Step, posting, opening, Reach, here, next}

module _ (same : String → String → Bool) where
  -- The tables after a posting, from what it has written.
  abbrev pub posted_row :
      {flow : Flow} {input : PostingInput} {out : PostingOutput} {writes : List Write} {a : Tables}
      → Posted flow input out writes a
      → TransactionRow
  posted_row {flow} {input} {out} posted =
      row_of (transaction_of flow.kind input out.transaction_id) posted.created

  abbrev pub next_row :
      {flow : Flow} {input : PostingInput} {out : PostingOutput} {writes : List Write} {a : Tables}
      → Posted flow input out writes a
      → AccountRow
  next_row posted = updated_row posted.row posted.changed.balance posted.updated

  pub posting-result :
      {flow : Flow} {input : PostingInput} {out : PostingOutput} {writes : List Write}
      {a b : Tables} (posted : Posted flow input out writes a)
      → b ≡ apply_all same writes a
      → b ≡ record {
        accounts = λ u. if same input.user_id u then some (next_row posted) else a.accounts u;
        transactions = posted_row posted ∷ a.transactions;
      }
  posting-result posted is = rw posted.written at is

  -- An account that is there stays there.
  pub Step-account :
      {a b : Tables} → Step same a b → (u : String) → a.accounts u ≢ none → b.accounts u ≢ none
  Step-account (posting flow input out writes _ posted _ is) u h =
      rw (posting-result posted is) (ground arith)
  Step-account (opening row _ _ _ is) u h = rw is (ground arith)

  pub Reach-account :
      {a b : Tables} → Reach same a b → (u : String) → a.accounts u ≢ none → b.accounts u ≢ none
  Reach-account here u h = h
  Reach-account (next r st) u h = Step-account st u (Reach-account r u h)

  -- A transaction on record under this key has its account.
  abbrev pub Owns : String → String → String → Tables → Type 0
  Owns user key kind t =
      (row : TransactionRow)
      → find_row same user key kind t.transactions ≡ some row
      → t.accounts user ≢ none

  pub Step-Owns :
      {a b : Tables} (user key kind : String)
      → Step same a b
      → Owns user key kind a
      → Owns user key kind b
  unfolding find_row
  Step-Owns {a} user key kind (posting flow input out writes _ posted _ is) h =
      rw (posting-result posted is) (λ row found. ground (arith, h row))
  Step-Owns user key kind (opening row _ _ _ is) h = rw is (λ r found. ground (arith, h r found))

  pub Reach-Owns :
      {a b : Tables} (user key kind : String)
      → Reach same a b
      → Owns user key kind a
      → Owns user key kind b
  Reach-Owns user key kind here h = h
  Reach-Owns user key kind (next r st) h = Step-Owns user key kind st (Reach-Owns user key kind r h)

  Step-transactions :
      {a b : Tables}
      → Step same a b
      → (new : List TransactionRow) × (b.transactions ≡ new ++ a.transactions)
  Step-transactions (posting flow input out writes _ posted _ is) =
      (posted_row posted ∷ [], ap (λ (t : Tables). t.transactions) (posting-result posted is))
  Step-transactions (opening row _ _ _ is) = ([], ap (λ (t : Tables). t.transactions) is)

  -- No transaction is ever removed: the new ones stand before the old ones.
  pub Reach-transactions :
      {a b : Tables}
      → Reach same a b
      → (new : List TransactionRow) × (b.transactions ≡ new ++ a.transactions)
  Reach-transactions here = ([], refl)
  Reach-transactions (next r st) =
      let (old, grown) = Reach-transactions r in
      let (new, added) = Step-transactions st in
      (new ++ old, added ∙ ap (λ ts. new ++ ts) grown ∙ sym (append_assoc new old _))
