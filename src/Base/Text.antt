-- ===== src/Base/Text.antt =====
-- Texts that are not equal, under the Boolean test.
use text.Mathlib.Text.{◌==◌ as str_eq}
use text.Mathlib.TextEquality.{eq_iff}
use Prim.Native.String.{String}
use mathlib.Core.Path.{◌≡◌}
use mathlib.Core.Logic.{◌≢◌, inl, inr}
use mathlib.Core.Bool.{false}
use mileage_core.Base.Tests.{Bool-cases}

pub text_differs : (a b : String) → a ≢ b → str_eq a b ≡ false
text_differs a b h = elim (Bool-cases (str_eq a b)) [
  | inl same ↦ absurd (h ((eq_iff a b).0 same))
  | inr differs ↦ differs
]
