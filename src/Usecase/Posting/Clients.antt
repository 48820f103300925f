-- ===== src/Usecase/Posting/Clients.antt =====
-- What the clients that run this code do to the two tables, one commit at a time: the interleavings
-- of grants, redemptions and account creations as a step relation.
pub mod Kept
pub mod Books
pub mod Execution
pub mod Solvent
pub mod Overdraft
pub mod Guarantee
pub mod Machine
pub mod Refinement
pub mod Linearized
use mileage_core.Base.{subst, String, Bool, true, ◌≡◌, ◌⊎◌, none, some, List, if◌then◌else◌}
use mileage_core.Base.Int.{pos}
use mileage_core.Mysql.Rows.{AccountRow}
use mileage_core.Tables.{Tables, Write, find_row, apply_all}
use mileage_core.Usecase.Posting.{PostingInput, PostingOutput, Flow, grant_flow, redeem_flow}
use mileage_core.Usecase.Posting.Transaction.{Posted}

-- The two usecases.
abbrev pub IsUsecase : Flow → Type 0
IsUsecase flow = (flow ≡ grant_flow) ⊎ (flow ≡ redeem_flow)

module _ (same : String → String → Bool) where
  -- The tables with the row of a new account.
  abbrev pub opened : AccountRow → Tables → Tables
  opened row a = record a { accounts = λ u. if same row.user_id u then some row else a.accounts u }

  -- One commit: a posting under a key that is free, from the row that is stored at that point, or
  -- the row that CreateAccount inserts under a primary key that is free.
  pub data Step (a b : Tables) : Type 0 where
    posting :
        (flow : Flow) (input : PostingInput) (out : PostingOutput) (writes : List Write)
        → IsUsecase flow
        → Posted flow input out writes a
        → find_row same input.user_id input.idempotency_key flow.kind a.transactions ≡ none
        → b ≡ apply_all same writes a
        → Step a b
    opening :
        (row : AccountRow)
        → row.balance ≡ pos 0
        → row.version ≡ pos 0
        → ((u : String) → same row.user_id u ≡ true → a.accounts u ≡ none)
        → b ≡ opened row a
        → Step a b

  -- Any number of commits by any clients.
  pub data Reach (a : Tables) : Tables → Type 0 where
    here : Reach a a
    next : {b c : Tables} → Reach a b → Step b c → Reach a c

  pub Reach-trans : {a b c : Tables} → Reach a b → Reach b c → Reach a c
  Reach-trans r here = r
  Reach-trans r (next q st) = next (Reach-trans r q) st

  pub Reach-of : {a b : Tables} → a ≡ b → Reach a b
  Reach-of {a} e = subst (Reach a) e here
