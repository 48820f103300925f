-- ===== src/Usecase/Auth/Nonce.antt =====
-- GenerateNonce of internal/usecase/auth.go, which nothing calls yet. crypto/rand is a parameter.
use Prim.Native.Char.{Char, code}
use Prim.Native.String.{char_at, len}
use mileage_core.Base.{
  ℕ, zero, suc, ◌<◌, String, Bool, true, ◌≡◌, refl, ◌&&◌, ◌||◌, ltb, leb, arith, if◌then◌else◌,
}
use mileage_core.Effect.{Action, returns, panics, follow, pure, Ensures, returned, Ensures-follow}
use mileage_core.Platform.{Platform, Reply, done, refused}
use mileage_core.Mysql.Contract.{On}
use mileage_core.GoText.Decimal.{all_below, all_below_sound}

-- const charset
abbrev pub charset : String
charset = "abcdefghijklmnopqrstuvwxyzABCDEFGHIJKLMNOPQRSTUVWXYZ0123456789"

-- rand.Int(rand.Reader, big.NewInt(max)): a number and an error.
pub record Randomness (p : Platform) : Type 0 where
  pub rand_int : ℕ → p.World → Reply ℕ × p.World

module _ (p : Platform) (random : Randomness p) where
  open p use {World}
  open random use {rand_int}

  -- `charset[n.Int64()]`: on an error n is nil, and out of range the index panics.
  unfoldable pub drawn : Reply ℕ → Action World Char
  drawn (done n) w = if ltb n (len charset) then returns (char_at charset n) w else panics w
  drawn (refused d) w = panics w

  -- The loop over the bytes that are left.
  unfoldable pub fill : ℕ → Action World String
  fill zero w = returns "" w
  fill (suc n) w =
      let (r, w') = rand_int (len charset) w in
      follow (drawn r w') (λ c v. follow (fill n v) (λ s. pure (String.◌∷◌ c s)))

  -- GenerateNonce
  unfoldable pub generate_nonce : Action World String
  generate_nonce w = fill 32 w

-- What is relied on of crypto/rand: a uniform source gives a number below the bound.
pub record Uniform (p : Platform) (random : Randomness p) : Type 0 where
  pub rand_law :
      (max : ℕ) (w : p.World) → 0 < max → On (random.rand_int max w).0 (λ n. n < max) (λ d. ⊥)

-- An ASCII letter or digit.
abbrev pub is_alphanumeric : ℕ → Bool
is_alphanumeric c =
    (leb b'a' c && leb c b'z') || ((leb b'A' c && leb c b'Z') || (leb b'0' c && leb c b'9'))

-- A text of so many ASCII letters and digits.
abbrev pub Alphanumeric : ℕ → String → Type 0
Alphanumeric zero String.[] = Unit
Alphanumeric zero (String.◌∷◌ c s) = ⊥
Alphanumeric (suc n) String.[] = ⊥
Alphanumeric (suc n) (String.◌∷◌ c s) = (is_alphanumeric (code c) ≡ true) × Alphanumeric n s

charset_table : all_below 62 (λ n. is_alphanumeric (code (char_at charset n))) ≡ true
unfolding all_below
charset_table = refl

module _ (p : Platform) (random : Randomness p) (uniform : Uniform p random) where
  open p use {World}

  drawn_lem :
      (r : Reply ℕ) (w : World)
      → On r (λ n. n < len charset) (λ d. ⊥)
      → Ensures (λ c w'. is_alphanumeric (code c) ≡ true) (λ e w'. ⊥) (drawn p random r w)
  unfolding drawn
  drawn_lem (done n) w low =
      let inside : ltb n (len charset) ≡ true = ground arith in
      rw inside (returned (all_below_sound 62 _ n charset_table low))
  drawn_lem (refused d) w h = absurd h

  fill_lem :
      (n : ℕ) (w : World) → Ensures (λ s w'. Alphanumeric n s) (λ e w'. ⊥) (fill p random n w)
  unfolding fill
  fill_lem zero w = returned tt
  fill_lem (suc n) w =
      Ensures-follow {Q = λ e w'. ⊥}
        (drawn_lem _ _ (uniform.rand_law (len charset) w (omega arith))) _
        (λ c v good.
          Ensures-follow {Q = λ e w'. ⊥} (fill_lem n v) _ (λ s v' rest. returned (good, rest))
            (λ e v' b. b))
        (λ e v b. b)

  -- If rand.Int never fails, GenerateNonce ends in no error and no panic, and returns a text of 32
  -- ASCII letters and digits.
  pub generate_nonce_lem :
      (w : World) → Ensures (λ s w'. Alphanumeric 32 s) (λ e w'. ⊥) (generate_nonce p random w)
  unfolding generate_nonce
  generate_nonce_lem w = fill_lem 32 w
