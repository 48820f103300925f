-- ===== src/Usecase/Posting/Success/Steps.antt =====
-- The steps of a posting on such a database, from the transaction's first statement to its commit.
use mileage_core.Base.{String, ◌≡◌, refl, ap, ◌∙◌, subst, Option, none, some, []}
use mileage_core.Base.Int.{pos, ◌+ℤ◌}
use mileage_core.Base.Int64.{IsInt64}
use mileage_core.Errors.{wrapped, driver}
use mileage_core.Effect.{
  Outcome, follow, logged, pure, ◌>>=◌, Ensures, returned, failed, Ensures-follow, Ensures-weaken,
  Ensures-change_error, Ensures-on_error,
}
use mileage_core.Platform.{Platform, Reply, done, refused}
use mileage_core.Domain.Account.{MileageAccount}
use mileage_core.Mysql.Rows.{AccountRow, account_of}
use mileage_core.Mysql.Tx.{
  Context, background, with_tx, expect, executed, commit_result, finish, run_in_tx,
}
use mileage_core.Mysql.Contract.{Server, On, TxView, new_view}
use mileage_core.Mysql.Effects.{FoundAccount, get_account-with_tx, insert_transaction_lem}
use mileage_core.Mysql.Calm.{
  Calm, Works, Ensures-total, IsDone, get_account-Works, insert_transaction-Works,
  update_balance-Works,
}
use mileage_core.Cache.{invalidate_balance}
use mileage_core.Tables.{Tables, find_row, AllLocked}
use mileage_core.Usecase.Posting.{
  PostingInput, PostingOutput, Flow, transaction_of, insertion_error, required, record_posting,
  post_account, post, execute_in_tx, max_retries, attempts, invalidated,
}
use mileage_core.Usecase.Posting.Transaction.{post_lem}

module _ (p : Platform) (s : Server p) (calm : Calm p s) (flow : Flow) (input : PostingInput)
    (row : AccountRow) (changed : MileageAccount) where
  open p use {World, Tx}
  open s use {committed, view, same, Others}

  -- The key is free, the account has this row, its method makes this of it, and the table takes the
  -- transaction under any identifier: the one that is generated counts as new.
  pub record Ready (t : Tables) : Type 0 where
    pub stored : t.accounts input.user_id ≡ some row
    pub balance_range : IsInt64 row.balance
    pub version_range : IsInt64 row.version
    pub next_range : IsInt64 (row.version +ℤ pos 1)
    pub accepted : flow.change (account_of row) input.amount ≡ (none, changed)
    pub changed_range : IsInt64 changed.balance
    pub fresh : find_row same input.user_id input.idempotency_key flow.kind t.transactions ≡ none
    pub fits : (id : String) → calm.Fits (transaction_of flow.kind input id)

  kept : {a b : Tables} → Others a b → Ready a → Ready b
  kept o ready = subst Ready (calm.only_client _ _ o) ready

  module _ (ctx : Context Tx) (t : Tx) where
    record_posting-Works :
        (id : String) (v : World)
        → Ready (committed v)
        → (view t v).writes ≡ []
        → Works (record_posting p flow (with_tx ctx t) input row.version changed id v)
    unfolding record_posting
    record_posting-Works id v ready clean =
        Ensures-follow
          (Ensures-change_error insertion_error
            (Ensures-total
              (insert_transaction-Works p s calm ctx t (transaction_of flow.kind input id) v
                (ready.fits id) clean ready.fresh)
              (insert_transaction_lem p s ctx t (transaction_of flow.kind input id) v))
            (λ e w b. b))
          _
          (λ u w h.
            let now : Ready (committed w) = kept h.0 ready in
            Ensures-follow
              (update_balance-Works p s calm ctx t input.user_id changed.balance row.version w row
                now.stored refl now.changed_range now.next_range)
              _ (λ u' w' h'. returned tt) (λ e w' b. b))
          (λ e w b. b)

    post_account-Works :
        (v : World)
        → Ready (committed v)
        → (view t v).writes ≡ []
        → Works (post_account p flow (with_tx ctx t) input (account_of row) v)
    unfolding post_account
    post_account-Works v ready clean = rw ready.accepted (
        record_posting-Works (p.new_ulid v).0 (p.new_ulid v).1 (kept (s.ulid_law v).0 ready)
          (ap (λ (x : TxView). x.writes) ((s.ulid_law v).1 t) ∙ clean))

    account-Works :
        (v : World) (found : Option MileageAccount)
        → Ready (committed v)
        → (view t v).writes ≡ []
        → FoundAccount p s input.user_id (committed v) found
        → Works (follow (required found v) (post_account p flow (with_tx ctx t) input))
    account-Works v none ready clean absent = absurd (cc ready.stored)
    account-Works v (some a) ready clean (other, e, shown) =
        let is : other ≡ row = cc (shown.0, ready.stored) in
        rw (e, is) (post_account-Works v ready clean)

    post-Works :
        (w : World)
        → Ready (committed w)
        → view t w ≡ new_view
        → Works (post p flow input (with_tx ctx t) w)
    unfolding post
    post-Works w ready fresh =
        Ensures-follow
          (Ensures-change_error (wrapped "get account")
            (Ensures-total
              (get_account-Works p s calm ctx t input.user_id w row ready.stored ready.balance_range
                ready.version_range)
              (get_account-with_tx p s ctx t input.user_id w fresh))
            (λ e v b. b))
          (λ found. required found >>= post_account p flow (with_tx ctx t) input)
          (λ found v h. account-Works v found (kept h.0.0 ready) h.0.1 h.1) (λ e v b. b)

    -- What the closure has written can be committed.
    post-AllLocked :
        (w : World)
        → Ready (committed w)
        → view t w ≡ new_view
        → Ensures
            (λ out v. AllLocked same (committed v) (committed v) (view t v).writes)
            (λ e v. ⊥)
            (post p flow input (with_tx ctx t) w)
    post-AllLocked w ready fresh =
        Ensures-weaken
          (Ensures-total (post-Works w ready fresh) (post_lem p s flow ctx t input w fresh))
          (λ out v h. rw h.1.written ((kept h.0 ready).fresh, (refl, tt))) (λ e v b. b)

  committed-Works :
      {A : Type 0} (a : A) (r : Reply (Unit {0})) (w : World)
      → IsDone r
      → Works (commit_result a r w)
  committed-Works a (done u) w h = returned tt
  committed-Works a (refused d) w h = absurd h

  finish-Works :
      {A : Type 0} (t : Tx) {o : Outcome World A}
      → Ensures (λ a v. AllLocked same (committed v) (committed v) (view t v).writes) (λ e v. ⊥) o
      → Works (finish p t o)
  unfolding finish
  finish-Works t (returned {a = a} {w = v} locked) = committed-Works a _ _ (calm.commits t v locked)
  finish-Works t (failed b) = absurd b

  begun-Works :
      (ctx : Context Tx) (r : Reply Tx) (v : World)
      → IsDone r
      → On r (λ t. view t v ≡ new_view) (λ d. Unit {0})
      → Ready (committed v)
      → Works (
          follow
            (expect (λ d. wrapped "begin tx" (driver d)) r v)
            (λ t v'. finish p t (post p flow input (with_tx ctx t) v')))
  begun-Works ctx (done t) v h fresh ready = finish-Works t (post-AllLocked ctx t v ready fresh)
  begun-Works ctx (refused d) v h fresh ready = absurd h

  execute_in_tx-Works :
      (ctx : Context Tx) (w : World)
      → Ready (committed w)
      → Works (execute_in_tx p flow ctx input w)
  unfolding execute_in_tx run_in_tx
  execute_in_tx-Works ctx w ready =
      let (others, fresh) = s.begin_law w in
      begun-Works ctx (p.begin_txx w).0 (p.begin_txx w).1 (calm.begins w) fresh (kept others ready)

  -- The first attempt goes through.
  pub attempts-Works :
      (w : World)
      → Ready (committed w)
      → Works (attempts p flow max_retries none background input w)
  unfolding attempts
  attempts-Works w ready =
      Ensures-on_error (execute_in_tx-Works background w ready) _ (λ e v b. absurd b)

-- A failed DEL is only logged.
pub invalidated-Works :
    (p : Platform) (flow : Flow) (input : PostingInput) (out : PostingOutput) (w : p.World)
    → Works (invalidated p flow input out w)
unfolding invalidate_balance
invalidated-Works p flow input out w = dropped _ _
  where
    dropped :
        (r : Reply (Unit {0})) (v : p.World)
        → Works
            (follow (logged (executed (λ d. wrapped "redis del" (driver d)) r v)) (λ x. pure out))
    dropped (done x) v = returned tt
    dropped (refused d) v = returned tt
