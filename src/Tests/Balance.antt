-- ===== src/Tests/Balance.antt =====
-- The memory platform's cache, and reading a balance with it.
use text.Mathlib.TextPositions.{eq_refl}
use mileage_core.Base.{String, ◌≡◌, refl, sym, ap, inl, Option, none, some, [], ◌∷◌}
use mileage_core.Base.Int.{pos}
use mileage_core.Effect.{Ensures}
use mileage_core.Platform.{Reply, done, refused, BalanceCache}
use mileage_core.Mysql.Tx.{background}
use mileage_core.Mysql.Contract.{On}
use mileage_core.Cache.{balance_key}
use mileage_core.Tables.{Tables}
use mileage_core.Usecase.Balance.{read_balance}
use mileage_core.Usecase.Balance.Coherence.{
  RedisServer, IsCoherent, CurrentAndCoherent, read_balance_lem,
}
use mileage_core.Tests.Memory.{Memory, memory, cached}
use mileage_core.Tests.Server.{memory_server, account_lem}
use mileage_core.Tests.Posting.{start, alice_row}

abbrev pub to_option : {A : Type 0} → Reply A → Option A
to_option (done a) = some a
to_option (refused d) = none

abbrev pub entry : Memory → String → Option BalanceCache
entry m key = to_option (cached key m.cache)

pub to_option_lem : {A : Type 0} (r : Reply A) → On r (λ a. to_option r ≡ some a) (λ d. Unit {0})
to_option_lem (done a) = refl
to_option_lem (refused d) = tt

pub set_entry :
    (key : String) (c : BalanceCache) (m : Memory)
    → entry ((memory.redis_set key c 5 m).1) key ≡ some c
unfolding cached
set_entry key c m = rw (eq_refl key) refl

abbrev pub redis : RedisServer memory
redis = record {
  entry = entry;
  get_law = λ key m. (inl refl, to_option_lem (cached key m.cache));
  set_law = λ key bytes minutes m. inl (set_entry key bytes m);
  select_law = λ u key m. inl (ap (λ (x : Memory). entry x key) (account_lem u m).0);
  json_law = λ c b e. sym e;
}

-- A user whose balance is in the cache.
abbrev cached_start : Memory
cached_start = record start {
  cache = ("mileage:balance:alice", record { balance = pos 0; version = pos 0 }) ∷ [];
}

cached_start-IsCoherent : IsCoherent memory memory_server redis "alice" cached_start
unfolding cached balance_key
cached_start-IsCoherent b c e d = (alice_row, refl, cc)

read_balance_lem_example :
    Ensures
      (CurrentAndCoherent memory memory_server redis "alice")
      (λ e m. IsCoherent memory memory_server redis "alice" m)
      (read_balance memory background "alice" cached_start)
read_balance_lem_example =
    read_balance_lem memory memory_server redis "alice"
      (λ a b e. ap (λ (t : Tables). t.accounts "alice") e) cached_start cached_start-IsCoherent
