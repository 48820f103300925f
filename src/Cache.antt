-- ===== src/Cache.antt =====
-- internal/infra/redis/cache.go: the balance cache.
use mileage_core.Base.{ℕ, String, ◌<>◌, Option, none, some}
use mileage_core.Base.Int.{ℤ}
use mileage_core.Errors.{redis_nil, driver, wrapped}
use mileage_core.Effect.{returns, fails, Action}
use mileage_core.Mysql.Tx.{executed}
use mileage_core.Platform.{Platform, Reply, done, refused, BalanceCache}

-- balanceKey
unfoldable pub balance_key : String → String
balance_key user_id = "mileage:balance:" <> user_id

-- The expiry that SetBalance gives, in minutes.
abbrev pub expiry_minutes : ℕ
expiry_minutes = 5

-- `json.Unmarshal(data, &cache)` and the return after it.
abbrev pub decoded : {W : Type 0} → Reply BalanceCache → Action W (Option BalanceCache)
decoded (done cache) w = returns (some cache) w
decoded (refused d) w = fails (wrapped "unmarshal cache" (driver d)) w

module _ (p : Platform) where
  open p use {World, redis_get, redis_set, redis_del, Bytes, marshal, unmarshal}

  -- The reply of GET: redis.Nil is a cache miss.
  unfoldable pub get_reply : Reply Bytes → Action World (Option BalanceCache)
  get_reply (done bytes) w = decoded (unmarshal bytes) w
  get_reply (refused redis_nil) w = returns none w
  get_reply (refused d) w = fails (wrapped "redis get" (driver d)) w

  -- GetBalance
  unfoldable pub get_balance : String → Action World (Option BalanceCache)
  unfolding get_reply
  get_balance user_id w = let (r, w') = redis_get (balance_key user_id) w in get_reply r w'

  -- The SET of SetBalance, once the value is encoded.
  abbrev pub store_encoded : String → Reply Bytes → Action World (Unit {0})
  store_encoded user_id (done bytes) w =
      let (r, w') = redis_set (balance_key user_id) bytes expiry_minutes w in
      executed (λ d. wrapped "redis set" (driver d)) r w'
  store_encoded user_id (refused d) w = fails (wrapped "marshal cache" (driver d)) w

  -- SetBalance
  unfoldable pub set_balance : String → ℤ → ℤ → Action World (Unit {0})
  set_balance user_id balance version w =
      store_encoded user_id (marshal (record { balance = balance; version = version })) w

  -- InvalidateBalance
  unfoldable pub invalidate_balance : String → Action World (Unit {0})
  invalidate_balance user_id w =
      let (r, w') = redis_del (balance_key user_id) w in
      executed (λ d. wrapped "redis del" (driver d)) r w'
