-- ===== src/Usecase/Posting/Clients/Execution.antt =====
-- Rely and guarantee for a call of Execute, among clients that run this code.
use mileage_core.Base.{◌≡◌, refl, sym, ◌∙◌, inl, inr, List, [], ◌∷◌}
use mileage_core.Errors.{Error}
use mileage_core.Effect.{Ensures, Ensures-weaken}
use mileage_core.Platform.{Platform}
use mileage_core.Mysql.Tx.{background}
use mileage_core.Mysql.Contract.{Server, row_of, updated_row}
use mileage_core.Tables.{Tables, Write, insert_row, update_row, apply_all, AllLocked}
use mileage_core.Usecase.Posting.{PostingInput, PostingOutput, Flow, transaction_of, execute}
use mileage_core.Usecase.Posting.Transaction.{Posted}
use mileage_core.Usecase.Posting.Attempts.{Effected, Unposted}
use mileage_core.Usecase.Posting.Execute.{Answered, execute_lem}
use mileage_core.Usecase.Posting.Clients.{
  IsUsecase, Step, posting, Reach, next, Reach-trans, Reach-of,
}
use mileage_core.Usecase.Posting.Clients.Kept.{Reach-account, Reach-Owns}
use mileage_core.Usecase.Posting.Clients.Books.{IsSound, Reach-IsSound}

-- The tables have changed by steps, and the books are sound.
abbrev pub Stepped : (p : Platform) (s : Server p) → p.World → p.World → Type 0
Stepped p s w w' = Reach s.same (s.committed w) (s.committed w') × IsSound s.same (s.committed w')

module _ (p : Platform) (s : Server p) (clients : (a b : Tables) → s.Others a b → Reach s.same a b)
    (flow : Flow) (usecase : IsUsecase flow) (input : PostingInput) where
  open p use {World}
  open s use {committed, same, Others}

  -- The posting at the point where the commit is applied.
  pub Posted-point :
      {out : PostingOutput} {writes : List Write} {ending point : Tables}
      → Posted flow input out writes ending
      → point.accounts input.user_id ≡ ending.accounts input.user_id
      → Posted flow input out writes point
  Posted-point posted kept = record {
    row = posted.row;
    changed = posted.changed;
    created = posted.created;
    updated = posted.updated;
    stored = kept ∙ posted.stored;
    balance_range = posted.balance_range;
    version_range = posted.version_range;
    accepted = posted.accepted;
    answer = posted.answer;
    written = posted.written;
  }

  applied-Step :
      {out : PostingOutput} {writes : List Write} {ending point : Tables}
      (posted : Posted flow input out writes ending)
      → AllLocked same ending point (
          insert_row (row_of (transaction_of flow.kind input out.transaction_id) posted.created)
          ∷ update_row input.user_id (updated_row posted.row posted.changed.balance posted.updated)
          ∷ [])
      → Step same point (apply_all same writes point)
  applied-Step {out} {writes} posted (fresh, (kept, _)) =
      posting flow input out writes usecase (Posted-point posted kept) fresh refl

  Effected-Reach :
      (w : World) (out : PostingOutput) (w' : World)
      → Effected p s flow input w out w'
      → Reach same (committed w) (committed w')
  Effected-Reach w out w' (v, (writes, ending, before, posted, applied), after) =
      let to_point : Reach same (committed w) applied.point =
        Reach-trans same (clients _ _ before) (clients _ _ applied.reached) in
      let step : Step same applied.point (apply_all same writes applied.point) =
        applied-Step posted (rw posted.written at applied.locked) in
      Reach-trans same (next to_point step)
        (Reach-trans same (Reach-of same (sym applied.result)) (clients _ _ after))

  Unposted-Reach :
      (w : World) (e : Error) (w' : World)
      → Unposted p s flow input w e w'
      → Reach same (committed w) (committed w')
  Unposted-Reach w e w' (inl o) = clients _ _ o
  Unposted-Reach w e w' (inr (out, failure, effect)) = Effected-Reach w out w' effect

  Answered-Reach :
      (w : World) (out : PostingOutput) (w' : World)
      → Answered p s flow input w out w'
      → Reach same (committed w) (committed w')
  Answered-Reach w out w' (inl replayed) =
      Reach-trans same (clients _ _ replayed.before) (clients _ _ replayed.after)
  Answered-Reach w out w' (inr effect) = Effected-Reach w out w' effect

  -- If all other clients only make postings and open accounts, as this code does, and the books are
  -- sound when the call begins, then Execute of a grant or a redemption returns a result or an
  -- error, with no panic, what happens to the tables meanwhile is again postings and account
  -- openings, and the books are sound after it.
  pub execute-Reach :
      (w : World)
      → IsSound same (committed w)
      → Ensures
          (λ out w'. Stepped p s w w')
          (λ e w'. Stepped p s w w')
          (execute p flow background input w)
  execute-Reach w sound =
      Ensures-weaken
        (execute_lem p s flow input
          (λ a b o. Reach-Owns same input.user_id input.idempotency_key flow.kind (clients a b o))
          (λ a b o. Reach-account same (clients a b o) input.user_id) w
          (sound.owned input.user_id input.idempotency_key flow.kind))
        (λ out w' h. stepped w' (Answered-Reach w out w' h))
        (λ e w' h. stepped w' (Unposted-Reach w e w' h))
    where
      stepped : (w' : World) → Reach same (committed w) (committed w') → Stepped p s w w'
      stepped w' r = (r, Reach-IsSound same s.same_symm s.same_trans r sound)
