-- ===== src/Usecase/Posting/Success.antt =====
-- Grants and redemptions on a database that works, with no other client.
pub mod Steps
pub mod Repeat
use text.Mathlib.Text.{◌==◌ as str_eq}
use mileage_core.Base.{
  ℕ, String, Bool-cases, false, ◌≡◌, ◌≢◌, refl, sym, ap, ◌∙◌, subst, inl, inr, Option, none, some,
  [], ◌∷◌, arith,
}
use mileage_core.Base.Text.{text_differs}
use mileage_core.Base.Int.{pos, ◌<ℤ◌, leb_ℤ}
use mileage_core.Errors.{Error, wrapped}
use mileage_core.Effect.{
  Outcome, follow, Ensures, returned, failed, Ensures-follow, Ensures-weaken, Ensures-change_error,
}
use mileage_core.Platform.{Platform}
use mileage_core.Domain.{MileageTransaction}
use mileage_core.Domain.Account.{MileageAccount}
use mileage_core.Mysql.Rows.{AccountRow, TransactionRow, account_of}
use mileage_core.Mysql.Tx.{background}
use mileage_core.Mysql.Contract.{Server, row_of, updated_row}
use mileage_core.Mysql.Effects.{FoundTransaction, find_transaction_lem}
use mileage_core.Mysql.Calm.{Calm, Works, Ensures-total, find_transaction-Works}
use mileage_core.Tables.{Tables, insert_row, update_row, find_row, apply_all}
use mileage_core.Usecase.Posting.{
  PostingInput, PostingOutput, Flow, transaction_of, max_retries, attempts, invalidated, proceed,
  execute,
}
use mileage_core.Usecase.Posting.Attempts.{Effected}
use mileage_core.Usecase.Posting.Execute.{Answered, execute_lem}
use mileage_core.Usecase.Posting.Success.Steps.{Ready, attempts-Works, invalidated-Works}

module _ (p : Platform) (s : Server p) (calm : Calm p s) (flow : Flow) (input : PostingInput)
    (row : AccountRow) (changed : MileageAccount) where
  open p use {World}
  open s use {committed, same}

  -- No transaction holds the key.
  taken :
      {t : Tables} {r : TransactionRow}
      → Ready p s calm flow input row changed t
      → find_row same input.user_id input.idempotency_key flow.kind t.transactions ≡ some r
      → ⊥
  taken ready held = cc ready.fresh

  -- A call of Execute ends as the removal of the cache entry does, the last of its steps.
  module _ (P : PostingOutput → World → Type 0)
      (last : (out : PostingOutput) (v : World)
        → Ensures P (λ e v'. ⊥) (invalidated p flow input out v)) where
    proceed_ends :
        (w : World) (found : Option MileageTransaction)
        → FoundTransaction p s input.user_id input.idempotency_key flow.kind (committed w) found
        → Ready p s calm flow input row changed (committed w)
        → Ensures P (λ e v. ⊥) (proceed p flow background input found w)
    unfolding proceed
    proceed_ends w (some m) (other, is, held) ready = absurd (cc ready.fresh)
    proceed_ends w none absent ready =
        Ensures-follow (attempts-Works p s calm flow input row changed w ready)
          (invalidated p flow input) (λ out v h. last out v) (λ e v b. b)

    pub execute_ends :
        (w : World)
        → pos 0 <ℤ input.amount
        → input.idempotency_key ≢ ""
        → Ready p s calm flow input row changed (committed w)
        → Ensures P (λ e v. ⊥) (execute p flow background input w)
    unfolding execute
    execute_ends w positive keyed ready =
        let good : leb_ℤ input.amount (pos 0) ≡ false = ground arith in
        rw (good, text_differs input.idempotency_key "" keyed)
          (Ensures-follow
            (Ensures-change_error (wrapped "check idempotency")
              (Ensures-total
                (find_transaction-Works p s calm input.user_id input.idempotency_key flow.kind w)
                (find_transaction_lem p s input.user_id input.idempotency_key flow.kind w))
              (λ e v b. b))
            _
            (λ found v h.
              proceed_ends v found h.1
                (subst (Ready p s calm flow input row changed) (calm.only_client _ _ h.0) ready))
            (λ e v b. b))

  -- The answer of a posting, and the tables after it: the transaction is on record and the account
  -- has the balance that the aggregate's method gives, under the next version.
  abbrev pub Booked : Tables → PostingOutput → Tables → Type 0
  Booked t out t' =
      (out.balance ≡ changed.balance)
      × (out.version ≡ changed.version)
      × (created updated : Option ℕ) × (t'
          ≡ apply_all same
              (insert_row (row_of (transaction_of flow.kind input out.transaction_id) created)
                ∷ update_row input.user_id (updated_row row changed.balance updated)
                ∷ [])
              t)

  abbrev pub Posts : World → PostingOutput → World → Type 0
  Posts w out w' = Booked (committed w) out (committed w')

  answered :
      (w : World) (out : PostingOutput) (w' : World)
      → Ready p s calm flow input row changed (committed w)
      → Answered p s flow input w out w'
      → Posts w out w'
  answered w out w' ready (inl replayed) =
      let same_tables : committed w ≡ replayed.seen = calm.only_client _ _ replayed.before in
      absurd (taken ready (rw (← same_tables) at replayed.held))
  answered w out w' ready (inr (v, (writes, ending, before, posted, applied), after)) =
      let at_end : committed w ≡ ending = calm.only_client _ _ before in
      let at_point : ending ≡ applied.point = calm.only_client _ _ applied.reached in
      let row_is : posted.row ≡ row = cc (rw (← at_end) at posted.stored, ready.stored) in
      let accepted : flow.change (account_of row) input.amount ≡ (none, posted.changed) =
        rw row_is at posted.accepted in
      let result_is : posted.changed ≡ changed =
        ap (λ (o : Option Error × MileageAccount). o.1) (sym accepted ∙ ready.accepted) in
      (
        ap (λ (o : PostingOutput). o.balance) posted.answer
            ∙ ap (λ (a : MileageAccount). a.balance) result_is,
        ap (λ (o : PostingOutput). o.version) posted.answer
            ∙ ap (λ (a : MileageAccount). a.version) result_is,
        posted.created,
        posted.updated,
        sym (calm.only_client _ _ after)
            ∙ applied.result
            ∙ rw (posted.written, row_is, result_is, ← at_point, ← at_end),
      )

  -- On a database that works, with no other client: a grant or a redemption of a positive amount
  -- under a non-empty key that is free, to an account that is there, in the range of an int64 before
  -- and after, and whose method accepts the amount, returns a result: the balance and version that
  -- the method gives; and then the tables are those before with the transaction on record and the
  -- account's row updated.
  pub execute-Posts :
      (w : World)
      → pos 0 <ℤ input.amount
      → input.idempotency_key ≢ ""
      → Ready p s calm flow input row changed (committed w)
      → Ensures (Posts w) (λ e w'. ⊥) (execute p flow background input w)
  execute-Posts w positive keyed ready =
      Ensures-weaken
        (Ensures-total
          (execute_ends _ (λ out v. invalidated-Works p flow input out v) w positive keyed ready)
          (execute_lem p s flow input (λ a b o own. rw (← calm.only_client _ _ o) own)
            (λ a b o there. rw (← calm.only_client _ _ o) there) w
            (λ r held. absurd (cc ready.fresh))))
        (λ out w' h. answered w out w' ready h) (λ e w' b. b)
