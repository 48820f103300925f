-- ===== src/Usecase/Posting/Clients/Guarantee.antt =====
-- A call of Execute and every user's money, among clients that run this code.
use mileage_core.Base.{String, ◌≡◌, List, ◌++◌}
use mileage_core.Effect.{Ensures, Ensures-weaken}
use mileage_core.Platform.{Platform}
use mileage_core.Mysql.Tx.{background}
use mileage_core.Mysql.Rows.{TransactionRow}
use mileage_core.Mysql.Contract.{Server}
use mileage_core.Tables.{Tables}
use mileage_core.Usecase.Posting.{PostingInput, Flow, execute}
use mileage_core.Usecase.Posting.Clients.{IsUsecase, Reach}
use mileage_core.Usecase.Posting.Clients.Kept.{Reach-transactions}
use mileage_core.Usecase.Posting.Clients.Books.{IsSound}
use mileage_core.Usecase.Posting.Clients.Execution.{Stepped, execute-Reach}
use mileage_core.Usecase.Posting.Clients.Solvent.{Solvent, Reach-Solvent}

-- Every user is solvent, and the transactions that were there are still there, behind the new ones.
abbrev pub Guaranteed : (p : Platform) (s : Server p) → p.World → p.World → Type 0
Guaranteed p s w w' =
    ((u : String) → Solvent s.same (s.committed w') u)
    × ((new : List TransactionRow) × ((s.committed w').transactions
          ≡ new ++ (s.committed w).transactions))

module _ (p : Platform) (s : Server p) (clients : (a b : Tables) → s.Others a b → Reach s.same a b)
    (flow : Flow) (usecase : IsUsecase flow) (input : PostingInput) where
  -- If all other clients only make postings and open accounts, as this code does, and the books are
  -- sound and every user solvent when a grant or a redemption is called, then, whether it returns a
  -- result or an error, no transaction has been removed after it, and every user is solvent: while
  -- the grants to a user sum up to at most 2^63 - 1, the balance is the exact sum of grants less
  -- redemptions, not negative, and at most the sum of the grants.
  pub execute-Solvent :
      (w : p.World)
      → IsSound s.same (s.committed w)
      → ((u : String) → Solvent s.same (s.committed w) u)
      → Ensures
          (λ out w'. Guaranteed p s w w')
          (λ e w'. Guaranteed p s w w')
          (execute p flow background input w)
  execute-Solvent w sound solvent =
      Ensures-weaken (execute-Reach p s clients flow usecase input w sound)
        (λ out w' h. guarantee w' h) (λ e w' h. guarantee w' h)
    where
      guarantee : (w' : p.World) → Stepped p s w w' → Guaranteed p s w w'
      guarantee w' (r, _) =
          (Reach-Solvent s.same s.same_symm s.same_trans r solvent, Reach-transactions s.same r)
