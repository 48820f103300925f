-- ===== src/GoText/Decimal.antt =====
-- Atoi on what Itoa writes.
use Prim.Native.Char.{code}
use mileage_core.Base.{
  ℕ, zero, suc, ◌+◌, ◌*◌, ◌/◌, ◌%◌, ◌-◌, ◌^◌, ◌≤◌, ◌<◌, String, Bool, true, false, ◌&&◌, ◌≡◌, refl,
  ◌∙◌, inl, inr, some, List, ◌∷◌, Bool-cases, ltb, ◌==◌, arith,
}
use mileage_core.Base.Int.{pos}
use mileage_core.GoText.{
  codes, is_digit, digits_value, magnitude, signed_value, atoi, digit, decimal, itoa,
}

abbrev power : ℕ → ℕ
power zero = 1
power (suc f) = 10 * power f

unfoldable pub all_below : ℕ → (ℕ → Bool) → Bool
all_below zero q = true
all_below (suc n) q = q n && all_below n q

pub all_below_sound : (n : ℕ) (q : ℕ → Bool) (x : ℕ) → all_below n q ≡ true → x < n → q x ≡ true
unfolding all_below
all_below_sound zero q x h lt = absurd (omega arith)
all_below_sound (suc n) q x h lt = ground (arith, all_below_sound n q x)

digit_table : all_below 10 (λ d. code (digit d) == (48 + d)) ≡ true
unfolding all_below digit
digit_table = refl

code-digit : (d : ℕ) → d < 10 → code (digit d) ≡ 48 + d
code-digit d h =
    ground (arith, all_below_sound 10 (λ d. code (digit d) == (48 + d)) d digit_table h)

-- The digits begin with a digit.
decimal_head :
    (f n : ℕ) (s : String)
    → n < power (suc f)
    → (c : ℕ) × (rest : List ℕ) × (codes (decimal (suc f) n s) ≡ c ∷ rest) × (48 ≤ c)
unfolding decimal
decimal_head zero n s h =
    let last : ltb n 10 ≡ true = ground arith in rw last (_, _, refl, omega (arith, code-digit n))
decimal_head (suc f) n s h = elim (Bool-cases (ltb n 10)) [
  | inl last ↦
      let small : n < 10 = ground arith in rw last (_, _, refl, omega (arith, code-digit n small))
  | inr more ↦ rw more (decimal_head f (n / 10) _ (omega arith))
]

digits_value-digit :
    (a d n : ℕ) (cs : List ℕ)
    → d < 10
    → a * 10 + d ≡ n
    → n < 2 ^ 64
    → digits_value a (code (digit d) ∷ cs) ≡ digits_value n cs
unfolding digits_value
digits_value-digit a d n cs low is small =
    let value : a * 10 + (48 + d - 48) ≡ n = omega arith in
    let right : is_digit (48 + d) ≡ true = ground arith in
    let inside : ltb n (2 ^ 64) ≡ true = ground arith in
    rw (code-digit d low, value, right, inside) refl

digits_value-decimal :
    (f n : ℕ) (s : String)
    → n < 2 ^ 64
    → n < power (suc f)
    → digits_value 0 (codes (decimal (suc f) n s)) ≡ digits_value n (codes s)
unfolding decimal
digits_value-decimal zero n s small fits =
    let last : ltb n 10 ≡ true = ground arith in
    rw last (digits_value-digit 0 n n (codes s) (omega arith) (omega arith) small)
digits_value-decimal (suc f) n s small fits = elim (Bool-cases (ltb n 10)) [
  | inl last ↦ rw last (digits_value-digit 0 n n (codes s) (ground arith) (omega arith) small)
  | inr more ↦ rw more (
      digits_value-decimal f (n / 10) _ (omega arith) (omega arith)
      ∙ digits_value-digit (n / 10) (n % 10) n (codes s) (omega arith) (omega arith) small)
]

magnitude_lem :
    (n c : ℕ) (rest : List ℕ)
    → digits_value 0 (c ∷ rest) ≡ some n
    → n < 2 ^ 63
    → magnitude false (c ∷ rest) ≡ (pos n, true)
unfolding magnitude
magnitude_lem n c rest read small =
    let inside : ltb n (2 ^ 63) ≡ true = ground arith in rw (read, magnitude) (rw inside)

signed_value-digits :
    (n : ℕ) (cs : List ℕ) (c : ℕ) (rest : List ℕ)
    → cs ≡ c ∷ rest
    → 48 ≤ c
    → digits_value 0 cs ≡ some n
    → n < 2 ^ 63
    → signed_value cs ≡ (pos n, true)
unfolding signed_value
signed_value-digits n cs c rest is digits value small =
    let read : digits_value 0 (c ∷ rest) ≡ some n = rw is at value in
    let no_minus : c == b'-' ≡ false = ground arith in
    let no_plus : c == b'+' ≡ false = ground arith in
    rw (is, no_minus, no_plus) (magnitude_lem n c rest read small)

-- Atoi reads back what Itoa writes for a number below 2^63, and reports no error.
pub atoi-itoa : (n : ℕ) → n < 2 ^ 63 → atoi (itoa n) ≡ (pos n, true)
unfolding atoi itoa digits_value
atoi-itoa n small =
    let (c, rest, head, digits) = decimal_head 19 n "" (omega arith) in
    signed_value-digits n _ c rest head digits
      (digits_value-decimal 19 n "" (omega arith) (omega arith)) small
