-- ===== src/Usecase/Posting/Clients/Books.antt =====
-- The books of the two tables under the steps of the clients: balances as sums, versions as counts,
-- keys, and the accounts of transactions.
use mileage_core.Base.{
  ℕ, suc, String, Bool, true, ◌≡◌, refl, sym, ap, ◌∙◌, inl, inr, none, some, Option, List, [], ◌∷◌,
  Bool-cases, arith, if◌then◌else◌,
}
use mileage_core.Base.Int.{ℤ, pos, ◌+ℤ◌, int_laws, eq_of_parts}
use mileage_core.Mysql.Rows.{AccountRow, TransactionRow}
use mileage_core.Tables.{Tables, Write, find_row, apply_all, AllLocked}
use mileage_core.Tables.Ledger.{IsConsistent, balance_of}
use mileage_core.Usecase.Posting.{PostingInput, PostingOutput, Flow}
use mileage_core.Usecase.Posting.Transaction.{Posted}
use mileage_core.Usecase.Posting.Ledger.{
  ChangesBySigned, grant_flow-ChangesBySigned, redeem_flow-ChangesBySigned, same-congruent,
  apply_all-IsConsistent,
}
use mileage_core.Usecase.Posting.Clients.{
  IsUsecase, Step, posting, opening, opened, Reach, here, next,
}
use mileage_core.Usecase.Posting.Clients.Kept.{
  Owns, posting-result, next_row, posted_row, Step-Owns,
}

abbrev pub version_of : Option AccountRow → ℤ
version_of none = pos 0
version_of (some r) = r.version

pub IsUsecase-ChangesBySigned : (flow : Flow) → IsUsecase flow → ChangesBySigned flow
IsUsecase-ChangesBySigned flow (inl is) = rw is grant_flow-ChangesBySigned
IsUsecase-ChangesBySigned flow (inr is) = rw is redeem_flow-ChangesBySigned

module _ (same : String → String → Bool) where
  -- The number of a user's transactions.
  unfoldable pub count : String → List TransactionRow → ℕ
  count user [] = 0
  count user (r ∷ rs) = let rest = count user rs in if same r.user_id user then suc rest else rest

  pub record IsSound (t : Tables) : Type 0 where
    pub consistent : IsConsistent same t
    pub counted : (u : String) → version_of (t.accounts u) ≡ pos (count u t.transactions)
    pub owned : (user key kind : String) → Owns same user key kind t

module _ (same : String → String → Bool)
    (same_symm : (a b : String) → same a b ≡ true → same b a ≡ true)
    (same_trans : (a b c : String) → same a b ≡ true → same b c ≡ true → same a c ≡ true) where
  count-congruent :
      (u v : String) (rs : List TransactionRow)
      → same u v ≡ true
      → count same u rs ≡ count same v rs
  unfolding count
  count-congruent u v [] e = refl
  count-congruent u v (r ∷ rs) e =
      rw (same-congruent same same_symm same_trans r.user_id u v e, count-congruent u v rs e)

  module _ {a : Tables} {flow : Flow} {input : PostingInput} {out : PostingOutput}
      {writes : List Write} (posted : Posted flow input out writes a)
      (fresh : find_row same input.user_id input.idempotency_key flow.kind a.transactions
        ≡ none) where
    locked : AllLocked same a a writes
    locked = rw posted.written (fresh, (refl, tt))

    posting-IsConsistent :
        IsUsecase flow → IsConsistent same a → IsConsistent same (apply_all same writes a)
    posting-IsConsistent usecase c =
        apply_all-IsConsistent same same_symm same_trans flow
          (IsUsecase-ChangesBySigned flow usecase) input posted locked c

    posting-counted :
        ((u : String) → version_of (a.accounts u) ≡ pos (count same u a.transactions))
        → (u : String)
        → version_of (if same input.user_id u then some (next_row same posted) else a.accounts u)
          ≡ pos (count same u (posted_row same posted ∷ a.transactions))
    unfolding count
    posting-counted counted u = elim (Bool-cases (same input.user_id u)) [
      | inl mine ↦
          let before : posted.row.version ≡ pos (count same u a.transactions) =
            sym (ap version_of posted.stored)
            ∙ counted input.user_id
            ∙ ap pos (count-congruent input.user_id u a.transactions mine) in
          rw (mine, before) (one_more _)
      | inr theirs ↦ rw theirs (counted u)
    ]
      where
        one_more : (n : ℕ) → pos n +ℤ pos 1 ≡ pos (suc n)
        one_more n = eq_of_parts _ _ (omega int_laws)

  module _ {a : Tables} (row : AccountRow) (zero_balance : row.balance ≡ pos 0)
      (absent : (u : String) → same row.user_id u ≡ true → a.accounts u ≡ none) where
    opening-keyed :
        IsConsistent same a
        → (u : String) (r : AccountRow) → (opened same row a).accounts u ≡ some r
        → same r.user_id u ≡ true
    opening-keyed c u r h = elim (Bool-cases (same row.user_id u)) [
      | inl mine ↦ let it : row ≡ r = ground arith in rw (← it) mine
      | inr theirs ↦ c.keyed u r (rw theirs at h)
    ]

    opening-IsConsistent : IsConsistent same a → IsConsistent same (opened same row a)
    opening-IsConsistent c = record {
      congruent = λ u v e.
          rw (same-congruent same same_symm same_trans row.user_id u v e)
            (ground (arith, c.congruent u v e));
      keyed = opening-keyed c;
      balanced = λ u. elim (Bool-cases (same row.user_id u)) [
        | inl mine ↦ rw (mine, zero_balance) (sym (ap balance_of (absent u mine)) ∙ c.balanced u)
        | inr theirs ↦ rw theirs (c.balanced u)
      ];
      distinct = c.distinct;
    }

  Step-IsSound : {a b : Tables} → Step same a b → IsSound same a → IsSound same b
  Step-IsSound {a} {b} (posting flow input out writes usecase posted fresh is) h = record {
    consistent = rw is (posting-IsConsistent posted fresh usecase h.consistent);
    counted = rw (posting-result same posted is) (posting-counted posted fresh h.counted);
    owned = λ user key kind.
        Step-Owns same user key kind (posting flow input out writes usecase posted fresh is)
          (h.owned user key kind);
  }
  Step-IsSound (opening row balance version absent is) h = record {
    consistent = rw is (opening-IsConsistent row balance absent h.consistent);
    counted = rw is (λ u. elim (Bool-cases (same row.user_id u)) [
      | inl mine ↦ rw (mine, version) (sym (ap version_of (absent u mine)) ∙ h.counted u)
      | inr theirs ↦ rw theirs (h.counted u)
    ]);
    owned = λ user key kind.
        Step-Owns same user key kind (opening row balance version absent is)
          (h.owned user key kind);
  }

  -- If the books are sound, no interleaving of grants, redemptions and account creations makes them
  -- unsound: each balance stays the sum of the user's transactions modulo 2^64, each version the
  -- number of them, no two transactions hold the same key, and each has its account.
  pub Reach-IsSound : {a b : Tables} → Reach same a b → IsSound same a → IsSound same b
  Reach-IsSound here h = h
  Reach-IsSound (next r st) h = Step-IsSound st (Reach-IsSound r h)
