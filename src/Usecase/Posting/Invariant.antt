-- ===== src/Usecase/Posting/Invariant.antt =====
-- Execute keeps the ledger consistent, whatever it returns and whatever others do meanwhile.
use mileage_core.Base.{◌≢◌, inl, inr, sym, subst, none}
use mileage_core.Errors.{Error}
use mileage_core.Effect.{Ensures, Ensures-weaken}
use mileage_core.Mysql.Tx.{background}
use mileage_core.Mysql.Contract.{Server}
use mileage_core.Platform.{Platform}
use mileage_core.Tables.{Tables, apply_all}
use mileage_core.Tables.Ledger.{IsConsistent}
use mileage_core.Usecase.Posting.{PostingInput, PostingOutput, Flow, execute}
use mileage_core.Usecase.Posting.Attempts.{Effected, Unposted}
use mileage_core.Usecase.Posting.Execute.{Owned, Answered, execute_lem}
use mileage_core.Usecase.Posting.Ledger.{ChangesBySigned, apply_all-IsConsistent}

module _ (p : Platform) (s : Server p) (flow : Flow) (by_signed : ChangesBySigned flow)
    (others_consistent : (a b : Tables)
      → s.Others a b
      → IsConsistent s.same a
      → IsConsistent s.same b)
    (input : PostingInput) where
  open p use {World}
  open s use {committed, same, Others}

  Effected-IsConsistent :
      (w : World) (out : PostingOutput) (w' : World)
      → IsConsistent same (committed w)
      → Effected p s flow input w out w'
      → IsConsistent same (committed w')
  Effected-IsConsistent w out w' c (v, (writes, ending, before, posted, applied), after) =
      let at_end : IsConsistent same ending = others_consistent _ _ before c in
      let at_point : IsConsistent same applied.point =
        others_consistent _ _ applied.reached at_end in
      let done_point : IsConsistent same (apply_all same writes applied.point) =
        apply_all-IsConsistent same s.same_symm s.same_trans flow by_signed input posted
          applied.locked at_point in
      others_consistent _ _ after (subst (IsConsistent same) (sym applied.result) done_point)

  Unposted-IsConsistent :
      (w : World) (e : Error) (w' : World)
      → IsConsistent same (committed w)
      → Unposted p s flow input w e w'
      → IsConsistent same (committed w')
  Unposted-IsConsistent w e w' c (inl o) = others_consistent _ _ o c
  Unposted-IsConsistent w e w' c (inr (out, failure, effect)) =
      Effected-IsConsistent w out w' c effect

  Answered-IsConsistent :
      (w : World) (out : PostingOutput) (w' : World)
      → IsConsistent same (committed w)
      → Answered p s flow input w out w'
      → IsConsistent same (committed w')
  Answered-IsConsistent w out w' c (inl replayed) =
      others_consistent _ _ replayed.after (others_consistent _ _ replayed.before c)
  Answered-IsConsistent w out w' c (inr effect) = Effected-IsConsistent w out w' c effect

  module _
      (owned_kept : (a b : Tables) → Others a b → Owned p s flow input a → Owned p s flow input b)
      (account_kept : (a b : Tables)
        → Others a b
        → a.accounts input.user_id ≢ none
        → b.accounts input.user_id ≢ none) where
    -- For a flow whose method changes a balance by the signed amount: if the tables are consistent
    -- when the call begins (each balance is the sum of the user's transactions modulo 2^64, no two
    -- rows hold the same key), other clients keep them so, a transaction on record under the
    -- request's key has its account, and other clients keep that so and never remove the account,
    -- then Execute returns a result or an error, with no panic, and the tables are consistent after it.
    pub execute-IsConsistent :
        (w : World)
        → Owned p s flow input (committed w)
        → IsConsistent same (committed w)
        → Ensures
            (λ out w'. IsConsistent same (committed w'))
            (λ e w'. IsConsistent same (committed w'))
            (execute p flow background input w)
    execute-IsConsistent w own c =
        Ensures-weaken (execute_lem p s flow input owned_kept account_kept w own)
          (λ out w' h. Answered-IsConsistent w out w' c h)
          (λ e w' h. Unposted-IsConsistent w e w' c h)
