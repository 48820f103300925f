-- ===== src/Usecase/Balance/Coherence.antt =====
-- When the cache agrees with the database, and that reading a balance keeps it so.
use mileage_core.Base.{
  ℕ, String, ◌≡◌, ◌⊎◌, inl, inr, refl, sym, ◌∙◌, subst, Option, none, some, [], ◌∷◌,
}
use mileage_core.Errors.{no_rows, redis_nil, mysql_error, other_error, wrapped, driver}
use mileage_core.Effect.{
  Outcome, pure, Ensures, returned, failed, follow, logged, Ensures-follow, Ensures-change_error,
  Ensures-on_error,
}
use mileage_core.Domain.Account.{MileageAccount}
use mileage_core.Platform.{Platform, Reply, done, refused, BalanceCache, on_db, varchar}
use mileage_core.Tables.{Tables}
use mileage_core.Mysql.Rows.{AccountRow, account_of}
use mileage_core.Mysql.Tx.{background, executed}
use mileage_core.Mysql.MileageRepository.{select_account_sql, get_account}
use mileage_core.Mysql.Contract.{Server, On}
use mileage_core.Mysql.Effects.{Shown, FoundAccount, row_or_nil_lem}
use mileage_core.Cache.{
  balance_key, expiry_minutes, decoded, get_reply, get_balance, store_encoded, set_balance,
}
use mileage_core.Usecase.Balance.{BalanceOutput, from_account, from_cache, read_balance}

-- What time does to an entry: it stays, or it expires.
abbrev pub Kept : {A : Type 0} → Option A → Option A → Type 0
Kept a b = (b ≡ a) ⊎ (b ≡ none)

-- What the cache relies on of Redis and of encoding/json. An entry under a user's key is changed
-- by this process alone, or expires.
pub record RedisServer (p : Platform) : Type 0 where
  pub entry : p.World → String → Option p.Bytes
  pub get_law :
      (key : String) (w : p.World)
      → let (r, w') = p.redis_get key w in
        Kept (entry w key) (entry w' key) × On r (λ b. entry w key ≡ some b) (λ d. Unit {0})
  pub set_law :
      (key : String) (bytes : p.Bytes) (minutes : ℕ) (w : p.World)
      → let w' = (p.redis_set key bytes minutes w).1 in
        (entry w' key ≡ some bytes) ⊎ Kept (entry w key) (entry w' key)
  pub select_law :
      (u key : String) (w : p.World)
      → Kept
          (entry w key)
          (entry (p.get_account_row on_db select_account_sql (varchar u ∷ []) w).1 key)
  pub json_law : (c : BalanceCache) (b : p.Bytes) → p.marshal c ≡ done b → p.unmarshal b ≡ done c

module _ (p : Platform) (s : Server p) (r : RedisServer p) (u : String) where
  open p use {World, Bytes, unmarshal}
  open s use {committed, Others}
  open r use {entry}

  -- The user's row says what a cached value says.
  abbrev pub Says : World → BalanceCache → Type 0
  Says w c =
      (row : AccountRow) × ((committed w).accounts u ≡ some row)
      × (c ≡ record { balance = row.balance; version = row.version })

  -- Whatever the user's entry decodes to is the committed balance and version.
  abbrev pub IsCoherent : World → Type 0
  IsCoherent w =
      (b : Bytes) (c : BalanceCache)
      → entry w (balance_key u) ≡ some b
      → unmarshal b ≡ done c
      → Says w c

  -- The balance that a call returns is the committed one at its end.
  abbrev pub Current : BalanceOutput → World → Type 0
  Current out w =
      (row : AccountRow) × ((committed w).accounts u ≡ some row)
      × (out ≡ record { user_id = u; balance = row.balance; version = row.version })

  abbrev pub CurrentAndCoherent : BalanceOutput → World → Type 0
  CurrentAndCoherent out w = Current out w × IsCoherent w

  -- A hit is the committed balance.
  abbrev pub Hit : World → Option BalanceCache → Type 0
  Hit w none = Unit {0}
  Hit w (some c) = Says w c

  abbrev pub Looked : World → Option BalanceCache → World → Type 0
  Looked w found w' = Others (committed w) (committed w') × IsCoherent w' × Hit w' found

  abbrev Quietly : World → World → Type 0
  Quietly w w' = Others (committed w) (committed w') × IsCoherent w'

  module _ (quiet : (a b : Tables) → Others a b → a.accounts u ≡ b.accounts u) where
    Says-later :
        (w w' : World) (c : BalanceCache)
        → Others (committed w) (committed w')
        → Says w c
        → Says w' c
    Says-later w w' c o (row, stored, is) = (row, sym (quiet _ _ o) ∙ stored, is)

    Kept-IsCoherent :
        (w w' : World)
        → Others (committed w) (committed w')
        → Kept (entry w (balance_key u)) (entry w' (balance_key u))
        → IsCoherent w
        → IsCoherent w'
    Kept-IsCoherent w w' o (inl same) h b c e d = Says-later w w' c o (h b c (sym same ∙ e) d)
    Kept-IsCoherent w w' o (inr expired) h b c e d = cc

    decoded_lem :
        (w w' : World) (b : Bytes) (reply : Reply BalanceCache)
        → Others (committed w) (committed w')
        → IsCoherent w'
        → ((c : BalanceCache) → reply ≡ done c → Says w' c)
        → Ensures
            (Looked w)
            (λ e w'. Others (committed w) (committed w') × IsCoherent w')
            (decoded reply w')
    decoded_lem w w' b (done c) o h says = returned (o, h, says c refl)
    decoded_lem w w' b (refused d) o h says = failed (o, h)

    get_reply_lem :
        (w w' : World) (reply : Reply Bytes)
        → Others (committed w) (committed w')
        → IsCoherent w
        → IsCoherent w'
        → On reply (λ b. entry w (balance_key u) ≡ some b) (λ d. Unit {0})
        → Ensures
            (Looked w)
            (λ e w'. Others (committed w) (committed w') × IsCoherent w')
            (get_reply p reply w')
    unfolding get_reply
    get_reply_lem w w' (done b) o before h e =
        decoded_lem w w' b (unmarshal b) o h (λ c d. Says-later w w' c o (before b c e d))
    get_reply_lem w w' (refused redis_nil) o before h e = returned (o, h, tt)
    get_reply_lem w w' (refused no_rows) o before h e = failed (o, h)
    get_reply_lem w w' (refused (mysql_error n m)) o before h e = failed (o, h)
    get_reply_lem w w' (refused (other_error m)) o before h e = failed (o, h)

    pub get_balance_lem :
        (w : World)
        → IsCoherent w
        → Ensures
            (Looked w)
            (λ e w'. Others (committed w) (committed w') × IsCoherent w')
            (get_balance p u w)
    unfolding get_balance
    get_balance_lem w h =
        let (kept, hit) = r.get_law (balance_key u) w in
        let o : Others (committed w) (committed (p.redis_get (balance_key u) w).1) =
          s.redis_get_law (balance_key u) w in
        get_reply_lem w _ _ o h (Kept-IsCoherent w _ o kept h) hit

    stored-IsCoherent :
        (w w' : World) (c : BalanceCache) (b : Bytes)
        → Others (committed w) (committed w')
        → (entry w' (balance_key u) ≡ some b)
          ⊎ Kept (entry w (balance_key u)) (entry w' (balance_key u))
        → unmarshal b ≡ done c
        → IsCoherent w
        → Says w c
        → IsCoherent w'
    stored-IsCoherent w w' c b o (inr kept) decodes h says b' c' e d =
        Kept-IsCoherent w w' o kept h b' c' e d
    stored-IsCoherent w w' c b o (inl stored) decodes h says b' c' e d =
        let it : b ≡ b' = cc in
        let value : c ≡ c' = cc in subst (Says w') value (Says-later w w' c o says)

    executed-Quietly :
        (w w' : World) (reply : Reply (Unit {0}))
        → Quietly w w'
        → Ensures
            (λ x v. Quietly w v)
            (λ e v. Quietly w v)
            (executed (λ d. wrapped "redis set" (driver d)) reply w')
    executed-Quietly w w' (done x) h = returned h
    executed-Quietly w w' (refused d) h = failed h

    store_encoded_lem :
        (w : World) (c : BalanceCache) (m : Reply Bytes)
        → p.marshal c ≡ m
        → IsCoherent w
        → Says w c
        → Ensures (λ x w'. Quietly w w') (λ e w'. Quietly w w') (store_encoded p u m w)
    store_encoded_lem w c (done b) e h says =
        let o : Others (committed w)
            (committed (p.redis_set (balance_key u) b expiry_minutes w).1) =
          s.redis_set_law (balance_key u) b expiry_minutes w in
        executed-Quietly w _ _ (
          o,
          stored-IsCoherent w _ c b o (r.set_law (balance_key u) b expiry_minutes w)
              (r.json_law c b e) h says,
        )
    store_encoded_lem w c (refused d) e h says = failed (s.others_refl _, h)

    Current-later :
        (w w' : World) (out : BalanceOutput)
        → Others (committed w) (committed w')
        → Current out w
        → Current out w'
    Current-later w w' out o (row, stored, is) = (row, sym (quiet _ _ o) ∙ stored, is)

    logged_lem :
        (w : World) (out : BalanceOutput) {o : Outcome World (Unit {0})}
        → Current out w
        → Ensures (λ x w'. Quietly w w') (λ e w'. Quietly w w') o
        → Ensures CurrentAndCoherent (λ e w'. IsCoherent w') (follow (logged o) (λ x. pure out))
    logged_lem w out now (returned {w = w'} h) = returned (Current-later w w' out h.0 now, h.1)
    logged_lem w out now (failed {w = w'} h) = returned (Current-later w w' out h.0 now, h.1)

    from_account_lem :
        (w : World) (found : Option MileageAccount)
        → IsCoherent w
        → FoundAccount p s u (committed w) found
        → Ensures CurrentAndCoherent (λ e w'. IsCoherent w') (from_account p u found w)
    unfolding from_account set_balance
    from_account_lem w none h absent = failed h
    from_account_lem w (some a) h (row, is, shown) =
        rw is (
          logged_lem w _ (row, shown.0, refl) (store_encoded_lem w _ _ refl h (row, shown.0, refl)))

    -- GetAccount for a user without a cache entry.
    looked_up :
        (w : World)
        → IsCoherent w
        → Ensures
            (λ found w'. IsCoherent w' × FoundAccount p s u (committed w') found)
            (λ e w'. IsCoherent w')
            (get_account p background u w)
    unfolding get_account
    looked_up w h =
        let (others, shown) = s.select_account_law u w in
        row_or_nil_lem account_of "get account" (λ row w'. Shown p s u (committed w') row)
          (λ w'. (committed w').accounts u ≡ none) IsCoherent _ _
          (Kept-IsCoherent w _ others (r.select_law u (balance_key u) w) h) shown

    from_cache_lem :
        (w : World) (found : Option BalanceCache)
        → IsCoherent w
        → Hit w found
        → Ensures CurrentAndCoherent (λ e w'. IsCoherent w') (from_cache p background u found w)
    unfolding from_cache
    from_cache_lem w (some c) h (row, stored, is) = returned ((row, stored, rw is refl), h)
    from_cache_lem w none h miss =
        Ensures-follow {Q = λ e w'. IsCoherent w'}
          (Ensures-change_error _ (looked_up w h) (λ e w' k. k)) (from_account p u)
          (λ found w' k. from_account_lem w' found k.0 k.1) (λ e w' k. k)

    -- If no other client changes the user's row, and whatever the user's cache entry decodes to is
    -- the committed balance and version, then reading a balance keeps that so, result or error, and
    -- a result is the committed balance and version when the call ends, whether it came from the
    -- cache or from the database.
    pub read_balance_lem :
        (w : World)
        → IsCoherent w
        → Ensures CurrentAndCoherent (λ e w'. IsCoherent w') (read_balance p background u w)
    unfolding read_balance
    read_balance_lem w h =
        Ensures-follow {Q = λ e w'. IsCoherent w'}
          (Ensures-on_error (get_balance_lem w h) _ (λ e w' k. returned (k.0, k.1, tt)))
          (from_cache p background u) (λ found w' k. from_cache_lem w' found k.1 k.2) (λ e w' k. k)
