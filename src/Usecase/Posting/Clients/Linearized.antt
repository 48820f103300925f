-- ===== src/Usecase/Posting/Clients/Linearized.antt =====
-- A call of Execute as one request to the machine, among clients that run this code.
use mileage_core.Base.{
  String, Bool, ◌≡◌, refl, sym, ap, subst, ◌∙◌, ◌⊎◌, inl, inr, some, List, [], ◌∷◌,
}
use mileage_core.Base.Int.{ℤ}
use mileage_core.Errors.{Error}
use mileage_core.Effect.{Ensures, Ensures-weaken}
use mileage_core.Platform.{Platform}
use mileage_core.Mysql.Tx.{background}
use mileage_core.Mysql.Contract.{Server, row_of, updated_row}
use mileage_core.Mysql.Commit.{IsCommitError}
use mileage_core.Tables.{Tables, insert_row, update_row, AllLocked}
use mileage_core.Tables.Ledger.{balance_of}
use mileage_core.Usecase.Posting.{PostingInput, PostingOutput, Flow, transaction_of, execute}
use mileage_core.Usecase.Posting.Attempts.{Effected, Unposted}
use mileage_core.Usecase.Posting.Execute.{Replayed, Answered, execute_lem}
use mileage_core.Usecase.Posting.Clients.{IsUsecase, Reach, Reach-trans}
use mileage_core.Usecase.Posting.Clients.Kept.{Reach-account, Reach-Owns}
use mileage_core.Usecase.Posting.Clients.Books.{IsSound}
use mileage_core.Usecase.Posting.Clients.Execution.{Posted-point}
use mileage_core.Usecase.Posting.Clients.Machine.{
  Machine, Request, request_of, amount_of, post_once, run, machine_of,
}
use mileage_core.Usecase.Posting.Clients.Refinement.{Reach-Runs, post_once-posting, posted_answer}

-- The machine at `finish` is the one at `start` after other requests, this one, and other requests
-- again. Once this one is made, its key stands for its amount; and the balance of the answer is the
-- balance that the machine holds at some moment from there on.
pub record Linearized (same : String → String → Bool) (start finish : Machine) (own : Request)
    (balance : ℤ) : Type 0 where
  pub before : List Request
  pub between : List Request
  pub after : List Request
  pub taken :
      (post_once same own (run same before start)).posted own.user_id own.key own.kind
      ≡ some own.amount
  pub answered :
      balance ≡ (run same between (post_once same own (run same before start))).balances own.user_id
  pub result :
      finish ≡ run same after (run same between (post_once same own (run same before start)))

Linearized-by :
    (same : String → String → Bool) (start finish m : Machine) (own : Request) (balance : ℤ)
    (before between after : List Request)
    → m ≡ post_once same own (run same before start)
    → m.posted own.user_id own.key own.kind ≡ some own.amount
    → balance ≡ (run same between m).balances own.user_id
    → finish ≡ run same after (run same between m)
    → Linearized same start finish own balance
Linearized-by same start finish m own balance before between after is taken answered result =
    record {
      before = before;
      between = between;
      after = after;
      taken = subst (λ n. n.posted own.user_id own.key own.kind ≡ some own.amount) is taken;
      answered = subst (λ n. balance ≡ (run same between n).balances own.user_id) is answered;
      result = subst (λ n. finish ≡ run same after (run same between n)) is result;
    }

module _ (p : Platform) (s : Server p) (clients : (a b : Tables) → s.Others a b → Reach s.same a b)
    (flow : Flow) (usecase : IsUsecase flow) (input : PostingInput) where
  open p use {World}
  open s use {committed, same, Others}

  abbrev pub own : Request
  own = request_of flow input

  abbrev pub Answers : World → PostingOutput → World → Type 0
  Answers w out w' =
      Linearized same (machine_of same (committed w)) (machine_of same (committed w')) own
        out.balance

  -- A failed call leaves the tables to others, but for a commit that failed and was applied.
  abbrev pub Fails : World → Error → World → Type 0
  Fails w e w' =
      Others (committed w) (committed w')
      ⊎ ((out : PostingOutput) × IsCommitError p s e × Answers w out w')

  Effected-Linearized :
      (w : World) (out : PostingOutput) (w' : World)
      → Effected p s flow input w out w'
      → Answers w out w'
  Effected-Linearized w out w' (v, (writes, ending, before, posted, applied), later) =
      let (fresh, (kept, _)) : AllLocked same ending applied.point (
          insert_row (row_of (transaction_of flow.kind input out.transaction_id) posted.created)
          ∷ update_row input.user_id (updated_row posted.row posted.changed.balance posted.updated)
          ∷ []) =
        rw posted.written at applied.locked in
      let there = Posted-point p s clients flow usecase input posted kept in
      let (reqs, to_point) =
        Reach-Runs same (Reach-trans same (clients _ _ before) (clients _ _ applied.reached)) in
      let (rest, from_point) = Reach-Runs same (clients _ _ later) in
      let made : machine_of same (committed v)
          ≡ post_once same own (run same reqs (machine_of same (committed w))) =
        post_once-posting same usecase there fresh applied.result
        ∙ ap (post_once same own) to_point in
      let (taken, answered) =
        posted_answer same usecase there fresh (s.same_refl _) (s.same_refl _) (s.same_refl _)
          applied.result in
      Linearized-by same _ _ _ own _ reqs [] rest made taken answered from_point

  Replayed-Linearized :
      (w : World) (out : PostingOutput) (w' : World)
      → Replayed p s flow input w out w'
      → Answers w out w'
  Replayed-Linearized w out w' h =
      let (reqs, to_seen) = Reach-Runs same (clients _ _ h.before) in
      let (rest, from_seen) = Reach-Runs same (clients _ _ h.after) in
      let held : (machine_of same h.seen).posted input.user_id input.idempotency_key flow.kind
          ≡ some input.amount =
        ap amount_of h.held ∙ ap some h.same_amount in
      let unchanged : post_once same own (machine_of same h.seen) ≡ machine_of same h.seen =
        rw held refl in
      let made : machine_of same h.seen
          ≡ post_once same own (run same reqs (machine_of same (committed w))) =
        sym unchanged ∙ ap (post_once same own) to_seen in
      let answered : out.balance ≡ (run same rest (machine_of same h.seen)).balances input.user_id =
        ap (λ (o : PostingOutput). o.balance) h.answer
        ∙ sym (ap balance_of h.stored)
        ∙ ap (λ (m : Machine). m.balances input.user_id) from_seen in
      Linearized-by same _ _ _ own _ reqs rest [] made held answered from_seen

  Answered-Linearized :
      (w : World) (out : PostingOutput) (w' : World)
      → Answered p s flow input w out w'
      → Answers w out w'
  Answered-Linearized w out w' (inl replayed) = Replayed-Linearized w out w' replayed
  Answered-Linearized w out w' (inr effect) = Effected-Linearized w out w' effect

  Unposted-Linearized :
      (w : World) (e : Error) (w' : World) → Unposted p s flow input w e w' → Fails w e w'
  Unposted-Linearized w e w' (inl o) = inl o
  Unposted-Linearized w e w' (inr (out, failure, effect)) =
      inr (out, failure, Effected-Linearized w out w' effect)

  -- If all other clients only make postings and open accounts, and the books are sound when a grant
  -- or a redemption is called, then the call returns a result or an error, with no panic, and works
  -- like one atomic request to a machine of balances and taken keys. With a result: the tables
  -- afterwards stand for the machine after other clients' requests, this request, and others again;
  -- the request's key then stands for its amount; and the balance in the answer is the one that the
  -- machine holds when the request has been made or at a later moment of the call. With an error:
  -- the tables have been left to other clients, or a commit has failed though it was applied, and
  -- then the same holds as with a result.
  pub execute-Linearized :
      (w : World)
      → IsSound same (committed w)
      → Ensures
          (λ out w'. Answers w out w')
          (λ e w'. Fails w e w')
          (execute p flow background input w)
  execute-Linearized w sound =
      Ensures-weaken
        (execute_lem p s flow input
          (λ a b o. Reach-Owns same input.user_id input.idempotency_key flow.kind (clients a b o))
          (λ a b o. Reach-account same (clients a b o) input.user_id) w
          (sound.owned input.user_id input.idempotency_key flow.kind))
        (Answered-Linearized w) (Unposted-Linearized w)
