-- ===== src/Usecase/Balance/Fresh.antt =====
-- Reading the balance after a posting, on a database and a cache that work, with no other client.
use mileage_core.Base.{String, ◌≡◌, ◌≢◌, refl, sym, ap, ◌∙◌, Option, none, some}
use mileage_core.Base.Int.{pos, ◌+ℤ◌, ◌<ℤ◌}
use mileage_core.Base.Int64.{IsInt64}
use mileage_core.Errors.{wrapped, driver}
use mileage_core.Effect.{
  Outcome, pure, follow, logged, Ensures, returned, failed, Ensures-follow, Ensures-weaken,
  Ensures-both, Ensures-change_error, Ensures-on_error,
}
use mileage_core.Domain.Account.{MileageAccount}
use mileage_core.Platform.{Platform, Reply, done, refused, BalanceCache}
use mileage_core.Tables.{Tables}
use mileage_core.Mysql.Rows.{AccountRow}
use mileage_core.Mysql.Tx.{background, executed}
use mileage_core.Mysql.Contract.{Server}
use mileage_core.Mysql.Effects.{FoundAccount, get_account-background}
use mileage_core.Mysql.Calm.{Calm, Ensures-total, IsDone, get_account-background-Works}
use mileage_core.Cache.{balance_key, store_encoded, set_balance, invalidate_balance}
use mileage_core.Usecase.Balance.{BalanceOutput, from_account, from_cache, read_balance}
use mileage_core.Usecase.Balance.Coherence.{RedisServer, IsCoherent, Hit, get_balance_lem}
use mileage_core.Usecase.Posting.{PostingInput, PostingOutput, Flow, invalidated, execute}
use mileage_core.Usecase.Posting.Clients.{IsUsecase}
use mileage_core.Usecase.Posting.Success.{execute_ends, execute-Posts}
use mileage_core.Usecase.Posting.Success.Steps.{Ready}
use mileage_core.Usecase.Posting.Success.Repeat.{posted-Recorded, next_version}

-- A Redis that works: DEL removes the entry.
pub record Dropping (p : Platform) (r : RedisServer p) : Type 0 where
  pub del_law :
      (key : String) (w : p.World)
      → let (reply, w') = p.redis_del key w in IsDone reply × (r.entry w' key ≡ none)

-- Filling the cache ends in one way or the other.
store_ends :
    (p : Platform) (u : String) (m : Reply p.Bytes) (w : p.World)
    → Ensures (λ x v. Unit {0}) (λ e v. Unit {0}) (store_encoded p u m w)
store_ends p u (refused d) w = failed tt
store_ends p u (done b) w = ended _ _
  where
    ended :
        (reply : Reply (Unit {0})) (v : p.World)
        → Ensures
            (λ x v. Unit {0})
            (λ e v. Unit {0})
            (executed (λ d. wrapped "redis set" (driver d)) reply v)
    ended (done x) v = returned tt
    ended (refused d) v = failed tt

logged_lem :
    {W A : Type 0} (a : A) {o : Outcome W (Unit {0})}
    → Ensures (λ x v. Unit {0}) (λ e v. Unit {0}) o
    → Ensures (λ b v. b ≡ a) (λ e v. ⊥) (follow (logged o) (λ x. pure a))
logged_lem a (returned h) = returned refl
logged_lem a (failed h) = returned refl

module _ (p : Platform) (s : Server p) (calm : Calm p s) (r : RedisServer p) (u : String) where
  open p use {World}
  open s use {committed, Others}

  quiet : (a b : Tables) → Others a b → a.accounts u ≡ b.accounts u
  quiet a b o = ap (λ (t : Tables). t.accounts u) (calm.only_client a b o)

  module _ (row : AccountRow) (balance_range : IsInt64 row.balance)
      (version_range : IsInt64 row.version) where
    -- The balance and the version of the row.
    abbrev Told : BalanceOutput → World → Type 0
    Told out v = out ≡ record { user_id = u; balance = row.balance; version = row.version }

    from_account-Told :
        (w : World) (found : Option MileageAccount)
        → (committed w).accounts u ≡ some row
        → FoundAccount p s u (committed w) found
        → Ensures Told (λ e v. ⊥) (from_account p u found w)
    unfolding from_account set_balance
    from_account-Told w none stored absent = absurd (cc)
    from_account-Told w (some a) stored (other, is, shown) =
        let it : other ≡ row = cc (shown.0, stored) in
        rw (is, it) (logged_lem _ (store_ends p u _ w))

    from_cache-Told :
        (w : World) (found : Option BalanceCache)
        → (committed w).accounts u ≡ some row
        → Hit p s r u w found
        → Ensures Told (λ e v. ⊥) (from_cache p background u found w)
    unfolding from_cache
    from_cache-Told w (some c) stored (other, shown, is) =
        let it : other ≡ row = cc (shown, stored) in returned (rw (is, it) refl)
    from_cache-Told w none stored miss =
        Ensures-follow
          (Ensures-change_error (wrapped "get account")
            (Ensures-total
              (get_account-background-Works p s calm u w row stored balance_range version_range)
              (get_account-background p s u w))
            (λ e v b. b))
          (from_account p u)
          (λ found v k. from_account-Told v found (sym (quiet _ _ k.0) ∙ stored) k.1) (λ e v b. b)

    read_balance-Told :
        (w : World)
        → IsCoherent p s r u w
        → (committed w).accounts u ≡ some row
        → Ensures Told (λ e v. ⊥) (read_balance p background u w)
    unfolding read_balance
    read_balance-Told w coherent stored =
        Ensures-follow {Q = λ e v. ⊥}
          (Ensures-on_error (get_balance_lem p s r u quiet w coherent) _
            (λ e v k. returned (k.0, k.1, tt)))
          (from_cache p background u)
          (λ found v k. from_cache-Told v found (sym (quiet _ _ k.0) ∙ stored) k.2) (λ e v b. b)

module _ (p : Platform) (s : Server p) (calm : Calm p s) (r : RedisServer p) (d : Dropping p r)
    (flow : Flow) (input : PostingInput) (row : AccountRow) (changed : MileageAccount) where
  open p use {World}
  open s use {committed}

  -- The entry of the user is gone.
  abbrev Dropped : World → Type 0
  Dropped w = r.entry w (balance_key input.user_id) ≡ none

  invalidated-Dropped :
      (out : PostingOutput) (w : World)
      → Ensures (λ out' v. Dropped v) (λ e v. ⊥) (invalidated p flow input out w)
  unfolding invalidate_balance
  invalidated-Dropped out w = ended _ _ (d.del_law (balance_key input.user_id) w)
    where
      ended :
          (reply : Reply (Unit {0})) (v : World)
          → IsDone reply × (r.entry v (balance_key input.user_id) ≡ none)
          → Ensures
              (λ out' v'. Dropped v')
              (λ e v'. ⊥)
              (follow
                (logged (executed (λ d. wrapped "redis del" (driver d)) reply v))
                (λ x. pure out))
      ended (done x) v h = returned h.1
      ended (refused e) v h = absurd h.0

  execute-Dropped :
      (w : World)
      → pos 0 <ℤ input.amount
      → input.idempotency_key ≢ ""
      → Ready p s calm flow input row changed (committed w)
      → Ensures (λ out v. Dropped v) (λ e v. ⊥) (execute p flow background input w)
  execute-Dropped w positive keyed ready =
      execute_ends p s calm flow input row changed _ (λ out v. invalidated-Dropped out v) w positive
        keyed ready

  -- On a database and a Redis that work, with no other client: after a grant or a redemption that
  -- can go through, whatever the cache held before it, a balance that is read in the world that it
  -- leaves is returned, and is the balance and the version that the posting has answered.
  pub read-execute :
      IsUsecase flow
      → (w : World) → pos 0 <ℤ input.amount
      → input.idempotency_key ≢ ""
      → Ready p s calm flow input row changed (committed w)
      → Ensures
          (λ out w'.
            Ensures
              (λ read v.
                read
                ≡ record { user_id = input.user_id; balance = out.balance; version = out.version })
              (λ e v. ⊥)
              (read_balance p background input.user_id w'))
          (λ e w'. ⊥)
          (execute p flow background input w)
  read-execute usecase w positive keyed ready =
      Ensures-weaken
        (Ensures-both (execute-Dropped w positive keyed ready)
          (execute-Posts p s calm flow input row changed w positive keyed ready))
        (λ out w' (gone, (balance, version, created, updated, is)).
          let recorded =
            posted-Recorded p s calm flow input row changed (committed w) (committed w')
              out.transaction_id created updated ready is in
          Ensures-weaken
            (read_balance-Told p s calm r input.user_id _ recorded.balance_range
              recorded.version_range w' (λ b c e. absurd (cc gone)) recorded.stored)
            (λ read v told.
              told
              ∙ same_numbers out balance (
                  version
                  ∙ next_version p s calm flow input row changed usecase ready.next_range
                      ready.accepted))
            (λ e v b. b))
        (λ e w' b. b.0)
    where
      same_numbers :
          (out : PostingOutput)
          → out.balance ≡ changed.balance
          → out.version ≡ row.version +ℤ pos 1
          → ◌≡◌ {A = BalanceOutput}
              (record {
                user_id = input.user_id;
                balance = changed.balance;
                version = row.version +ℤ pos 1;
              })
              (record { user_id = input.user_id; balance = out.balance; version = out.version })
      same_numbers out balance version i = record {
        user_id = input.user_id;
        balance = sym balance i;
        version = sym version i;
      }
