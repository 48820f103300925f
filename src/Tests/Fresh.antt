-- ===== src/Tests/Fresh.antt =====
-- Reading the balance after a grant, on a memory platform whose cache holds an old balance.
use text.Mathlib.Text.{◌==◌ as str_eq}
use mileage_core.Base.{String, ◌≡◌, refl, inl, inr, none, List, [], ◌∷◌, Bool-cases, arith}
use mileage_core.Base.Int.{pos}
use mileage_core.Errors.{redis_nil}
use mileage_core.Effect.{Ensures}
use mileage_core.Mysql.Tx.{background}
use mileage_core.Platform.{refused, BalanceCache}
use mileage_core.Usecase.Balance.{read_balance}
use mileage_core.Usecase.Balance.Fresh.{Dropping, read-execute}
use mileage_core.Usecase.Posting.{grant_flow, execute}
use mileage_core.Tests.Memory.{Memory, memory, cached, dropped}
use mileage_core.Tests.Server.{memory_server}
use mileage_core.Tests.Balance.{redis}
use mileage_core.Tests.Posting.{alice_row, start, request}
use mileage_core.Tests.Success.{calm, granted_account, start-Ready}

cached-dropped :
    (key : String) (entries : List (String × BalanceCache))
    → cached key (dropped key entries) ≡ refused redis_nil
unfolding cached dropped
cached-dropped key [] = refl
cached-dropped key ((k, v) ∷ rest) = elim (Bool-cases (str_eq k key)) [
  | inl same ↦ rw same (cached-dropped key rest)
  | inr other ↦ rw (other, other) (cached-dropped key rest)
]

dropped_entry : (key : String) (m : Memory) → redis.entry (memory.redis_del key m).1 key ≡ none
dropped_entry key m = rw (cached-dropped key m.cache) refl

abbrev dropping : Dropping memory redis
dropping = record { del_law = λ key m. (tt, dropped_entry key m) }

abbrev stale_start : Memory
stale_start = record start {
  cache = ("mileage:balance:alice", record { balance = pos 7; version = pos 7 }) ∷ [];
}

read-execute_example :
    Ensures
      (λ out w.
        Ensures
          (λ read v.
            read ≡ record { user_id = "alice"; balance = out.balance; version = out.version })
          (λ e v. ⊥)
          (read_balance memory background "alice" w))
      (λ e w. ⊥)
      (execute memory grant_flow background (request "k" (pos 100)) stale_start)
read-execute_example =
    read-execute memory memory_server calm redis dropping grant_flow (request "k" (pos 100))
      alice_row granted_account (inl refl) stale_start (ground arith) (λ e. cc) start-Ready
