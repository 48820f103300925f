-- ===== src/Handler/Mileage/Success.antt =====
-- The answer to a posting on a database that works, with no other client.
use mileage_core.Base.{String, false, ◌≡◌, ◌≢◌, refl, some, arith}
use mileage_core.Base.Text.{text_differs}
use mileage_core.Base.Int.{pos, ◌<ℤ◌, leb_ℤ}
use mileage_core.Effect.{Outcome, Ensures, returned, failed}
use mileage_core.Platform.{Platform}
use mileage_core.Domain.Account.{MileageAccount}
use mileage_core.Mysql.Rows.{AccountRow}
use mileage_core.Mysql.Contract.{Server}
use mileage_core.Mysql.Calm.{Calm}
use mileage_core.Usecase.Posting.{PostingOutput, Flow}
use mileage_core.Usecase.Posting.Success.{Posts, execute-Posts}
use mileage_core.Usecase.Posting.Success.Steps.{Ready}
use mileage_core.Handler.{Request, Response, posting_response}
use mileage_core.Handler.Mileage.{
  PostingRequest, input_of, posting_answer, handle_bound, handle_posting,
}

module _ (p : Platform) (s : Server p) (calm : Calm p s) (flow : Flow) (operation : String)
    (c : Request) (req : PostingRequest) (row : AccountRow) (changed : MileageAccount) where
  open p use {World}

  -- The response tells of the posting.
  abbrev pub Acknowledged : World → Response → World → Type 0
  Acknowledged w r w' =
      (r.status ≡ 200)
      × (out : PostingOutput) × (r.body
          ≡ posting_response (record {
            transaction_id = out.transaction_id;
            balance = out.balance;
            version = out.version;
          }))
      × Posts p s calm flow (input_of c (c.header "Idempotency-Key") req) row changed w out w'

  acknowledged :
      (w : World) (o : Outcome World PostingOutput)
      → Ensures
          (Posts p s calm flow (input_of c (c.header "Idempotency-Key") req) row changed w)
          (λ e w'. ⊥)
          o
      → Ensures (Acknowledged w) (λ e w'. ⊥) (posting_answer c operation o)
  acknowledged w _ (returned {a = out} h) = returned (refl, out, refl, h)
  acknowledged w _ (failed b) = absurd b

  -- On a database that works, with no other client: a request with an Idempotency-Key header and a
  -- bound body of a positive amount, whose posting can go through, is answered by status 200 and the
  -- transaction, balance and version of the posting, and then the tables are those before with the
  -- transaction on record and the account's row updated.
  pub handle_posting-Posts :
      (w : World)
      → c.header "Idempotency-Key" ≢ ""
      → pos 0 <ℤ req.amount
      → Ready p s calm flow
          (input_of c (c.header "Idempotency-Key") req)
          row
          changed
          (s.committed w)
      → Ensures (Acknowledged w) (λ e w'. ⊥) (handle_posting p flow operation c (some req) w)
  unfolding handle_posting handle_bound
  handle_posting-Posts w keyed positive ready =
      let good : leb_ℤ req.amount (pos 0) ≡ false = ground arith in
      rw (text_differs (c.header "Idempotency-Key") "" keyed, good)
        (acknowledged w _ (
          execute-Posts p s calm flow (input_of c (c.header "Idempotency-Key") req) row changed w
            positive keyed ready))
