-- ===== src/GoText.antt =====
-- strconv.Atoi and strconv.Itoa of Go's standard library, which the handlers, the configuration and
-- the metrics call.
pub mod Decimal
use Prim.Native.Char.{Char, code}
use Prim.Native.String.{char_at}
use mileage_core.Base.{
  ℕ, ◌+◌, ◌*◌, ◌/◌, ◌%◌, ◌-◌, ◌^◌, zero, suc, String, Bool, true, false, ◌&&◌, Option, none, some,
  List, [], ◌∷◌, ltb, leb, ◌==◌, if◌then◌else◌,
}
use mileage_core.Base.Int.{ℤ, pos, ◌-ℤ◌}

-- The bytes of a text, if it is ASCII; other characters are no digits either way.
abbrev pub codes : String → List ℕ
codes String.[] = []
codes (String.◌∷◌ c s) = code c ∷ codes s

abbrev pub is_digit : ℕ → Bool
is_digit c = leb b'0' c && leb c b'9'

-- The value of the digits, `none` at the first character that is no digit. Like ParseUint it stops
-- at the first digit that takes the value out of a uint64.
unfoldable pub digits_value : ℕ → List ℕ → Option ℕ
digits_value acc [] = some acc
digits_value acc (c ∷ cs) =
    let next = acc * 10 + (c - b'0') in
    let rest = digits_value next cs in
    if is_digit c then (if ltb next (2 ^ 64) then rest else some next) else none

-- A magnitude with its sign, clamped to int64 with an error if it does not fit.
abbrev pub in_range : Bool → ℕ → ℤ × Bool
in_range true n = if leb n (2 ^ 63) then (pos 0 -ℤ pos n, true) else (pos 0 -ℤ pos (2 ^ 63), false)
in_range false n = if ltb n (2 ^ 63) then (pos n, true) else (pos (2 ^ 63 - 1), false)

unfoldable pub magnitude : Bool → List ℕ → ℤ × Bool
magnitude negative [] = (pos 0, false)
magnitude negative (c ∷ cs) = elim (digits_value 0 (c ∷ cs)) [
  | some n ↦ in_range negative n
  | none ↦ (pos 0, false)
]

unfoldable pub signed_value : List ℕ → ℤ × Bool
signed_value [] = (pos 0, false)
signed_value (c ∷ cs) =
    if c == b'-'
    then magnitude true cs
    else if c == b'+'
    then magnitude false cs
    else magnitude false (c ∷ cs)

-- Atoi: the value, and whether the error is nil.
unfoldable pub atoi : String → ℤ × Bool
unfolding signed_value magnitude digits_value ◌-ℤ◌
atoi text = signed_value (codes text)

-- The character of a digit.
unfoldable pub digit : ℕ → Char
digit d = char_at "0123456789" d

-- The decimal digits before a text, the last digit first, for at most so many digits.
unfoldable pub decimal : ℕ → ℕ → String → String
decimal zero n s = s
decimal (suc f) n s =
    let more = decimal f (n / 10) (String.◌∷◌ (digit (n % 10)) s) in
    if ltb n 10 then String.◌∷◌ (digit n) s else more

-- Itoa of a number that is not negative: 20 digits are enough for 64 bits.
unfoldable pub itoa : ℕ → String
itoa n = decimal 20 n ""
