-- ===== src/Tests/Nonce.antt =====
-- A nonce from a source that always gives the same number.
use mileage_core.Base.{ℕ, ◌-◌, ◌<◌, ◌≡◌, refl, arith}
use mileage_core.Effect.{returns, Ensures}
use mileage_core.Platform.{done}
use mileage_core.Usecase.Auth.Nonce.{
  Randomness, Uniform, Alphanumeric, drawn, fill, generate_nonce, generate_nonce_lem,
}
use mileage_core.Tests.Memory.{memory}
use mileage_core.Tests.Posting.{start}

abbrev constant : Randomness memory
constant = record { rand_int = λ max m. (done (max - 1), m) }

rand_law : (max : ℕ) → 0 < max → max - 1 < max
rand_law max positive = omega arith

abbrev constant_uniform : Uniform memory constant
constant_uniform = record { rand_law = λ max m positive. rand_law max positive }

nines : generate_nonce memory constant start ≡ returns "99999999999999999999999999999999" start
unfolding generate_nonce fill drawn
nines = refl

generate_nonce_lem_example :
    Ensures (λ s m. Alphanumeric 32 s) (λ e m. ⊥) (generate_nonce memory constant start)
generate_nonce_lem_example = generate_nonce_lem memory constant constant_uniform start
