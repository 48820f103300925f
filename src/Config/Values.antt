-- ===== src/Config/Values.antt =====
-- The values that the configuration takes from the environment.
use text.Mathlib.Text.{◌==◌ as str_eq}
use text.Mathlib.TextEquality.{eq_iff}
use mileage_core.Base.{
  ℕ, ◌*◌, ◌^◌, ◌<◌, ◌≤◌, Bool, sym, ap, ◌∙◌, String, ◌≡◌, refl, inl, inr, Bool-cases, arith,
}
use mileage_core.Base.Int.{ℤ, pos, negsuc, times, ◌≤ℤ◌, ◌<ℤ◌}
use mileage_core.Base.Int64.{wrap64_self, wrap64_over}
use mileage_core.GoText.{atoi, itoa}
use mileage_core.GoText.Decimal.{atoi-itoa}
use mileage_core.Config.{Environment, get_env_int, hours, load}

-- A variable that holds the decimal digits of a number below 2^63 gives that number.
pub get_env_int-itoa :
    (env : Environment) (key : String) (default_value : ℤ) (n : ℕ)
    → n < 2 ^ 63
    → env key ≡ itoa n
    → get_env_int env key default_value ≡ pos n
unfolding get_env_int atoi
get_env_int-itoa env key default_value n small is = elim (Bool-cases (str_eq (env key) "")) [
  | inl empty ↦ absurd (no_digits (sym is ∙ (eq_iff (env key) "").0 empty))
  | inr given ↦ rw (given, is, atoi-itoa n small) refl
]
  where
    no_digits : itoa n ≡ "" → ⊥
    no_digits e = cc (ap (λ (r : ℤ × Bool). r.1) (sym (ap atoi e) ∙ atoi-itoa n small))

-- The lifetime of a token is the configured number of hours, exactly, from -2562047 to 2562047
-- hours.
hours_exact : (n : ℤ) → n ≤ℤ pos 2562047 → negsuc 2562046 ≤ℤ n → hours n ≡ times 3600000000000 n
unfolding hours
hours_exact n high low = wrap64_self (times 3600000000000 n) (ground arith)

-- From 2562048 hours up to twice as many, the lifetime is negative.
hours_over : (n : ℕ) → 2562048 ≤ n → n ≤ 5124095 → hours (pos n) <ℤ pos 0
unfolding hours
hours_over n low high = wrap64_over (times 3600000000000 (pos n)) (ground arith) (ground arith)

-- If JWT_EXPIRY_HOURS holds the decimal digits of n, tokens live for n hours where n is at most
-- 2562047; from 2562048 to 5124095 the product has overflowed and the lifetime is negative.
pub token_lifetime :
    (env : Environment) (n : ℕ)
    → env "JWT_EXPIRY_HOURS" ≡ itoa n
    → (n ≤ 2562047 → (load env).jwt.expiry_time ≡ pos (3600000000000 * n))
      × (2562048 ≤ n → n ≤ 5124095 → (load env).jwt.expiry_time <ℤ pos 0)
unfolding load
token_lifetime env n is = (
  λ fits.
      ap hours (get_env_int-itoa env "JWT_EXPIRY_HOURS" (pos 24) n (omega arith) is)
      ∙ hours_exact (pos n) (omega arith) (omega arith)
      ∙ ground arith,
  λ low high.
      rw (get_env_int-itoa env "JWT_EXPIRY_HOURS" (pos 24) n (omega arith) is)
        (hours_over n low high),
)
