-- ===== src/Effect.antt =====
-- Calls that read and change the outside world: a call returns a value, returns an error, or
-- panics (a nil dereference). Each ends in a world, for what was done before an error stays done.
use mileage_core.Base.{Option, none, some}
use mileage_core.Errors.{Error}

pub data Outcome (W A : Type 0) : Type 0 where
  returns : A → W → Outcome W A
  fails : Error → W → Outcome W A
  panics : W → Outcome W A

abbrev pub Action : Type 0 → Type 0 → Type 0
Action W A = W → Outcome W A

module _ {W A : Type 0} where
  abbrev pub pure : A → Action W A
  pure a w = returns a w

  -- `return nil, err`
  abbrev pub fail : Error → Action W A
  fail e w = fails e w

  -- A nil dereference.
  abbrev pub panic : Action W A
  panic w = panics w

  -- A call of code outside the repository, whose reply is a value that the caller inspects.
  abbrev pub call : (W → A × W) → Action W A
  call f w = let (a, w') = f w in returns a w'

-- `if err != nil { return err }` after a call.
abbrev pub follow : {W A B : Type 0} → Outcome W A → (A → Action W B) → Outcome W B
follow (returns a w) f = f a w
follow (fails e w) f = fails e w
follow (panics w) f = panics w

infixl 5 ◌>>=◌ ◌>>◌
abbrev pub ◌>>=◌ : {W A B : Type 0} → Action W A → (A → Action W B) → Action W B
◌>>=◌ m f w = follow (m w) f

abbrev pub ◌>>◌ : {W A B : Type 0} → Action W A → Action W B → Action W B
m >> k = m >>= λ _. k

-- `if err != nil { return g(err) }` after a call.
abbrev pub change_error : {W A : Type 0} → (Error → Error) → Outcome W A → Outcome W A
change_error g (returns a w) = returns a w
change_error g (fails e w) = fails (g e) w
change_error g (panics w) = panics w

abbrev pub with_error : {W A : Type 0} → (Error → Error) → Action W A → Action W A
with_error g m w = change_error g (m w)

-- `err` of a call that returns nothing else.
abbrev pub return_error : {W : Type 0} → Option Error → Action W (Unit {0})
return_error none w = returns tt w
return_error (some e) w = fails e w

-- A handler for the error of a call.
abbrev pub on_error : {W A : Type 0} → Outcome W A → (Error → Action W A) → Outcome W A
on_error (returns a w) h = returns a w
on_error (fails e w) h = h e w
on_error (panics w) h = panics w

-- A call whose error is only logged.
abbrev pub logged : {W A : Type 0} → Outcome W A → Outcome W (Unit {0})
logged (returns a w) = returns tt w
logged (fails e w) = returns tt w
logged (panics w) = panics w

-- What is known of a call, by how it ended. A call that may panic ensures nothing.
pub data Ensures {W A : Type 0} (P : A → W → Type 0) (Q : Error → W → Type 0)
    : Outcome W A → Type 0 where
  returned : {a : A} {w : W} → P a w → Ensures P Q (returns a w)
  failed : {e : Error} {w : W} → Q e w → Ensures P Q (fails e w)

module _ {W A B : Type 0} where
  -- The rule for a call followed by the rest.
  pub Ensures-follow :
      {P : A → W → Type 0} {Q : Error → W → Type 0} {R : B → W → Type 0} {S : Error → W → Type 0}
      {o : Outcome W A}
      → Ensures P Q o
      → (f : A → Action W B) → ((a : A) (w : W) → P a w → Ensures R S (f a w))
      → ((e : Error) (w : W) → Q e w → S e w)
      → Ensures R S (follow o f)
  Ensures-follow (returned p) f next stop = next _ _ p
  Ensures-follow (failed q) f next stop = failed (stop _ _ q)

module _ {W A : Type 0} where
  pub Ensures-weaken :
      {P R : A → W → Type 0} {Q S : Error → W → Type 0} {o : Outcome W A}
      → Ensures P Q o
      → ((a : A) (w : W) → P a w → R a w)
      → ((e : Error) (w : W) → Q e w → S e w)
      → Ensures R S o
  Ensures-weaken (returned p) good bad = returned (good _ _ p)
  Ensures-weaken (failed q) good bad = failed (bad _ _ q)

  pub Ensures-change_error :
      {P : A → W → Type 0} {Q S : Error → W → Type 0} {o : Outcome W A} (g : Error → Error)
      → Ensures P Q o
      → ((e : Error) (w : W) → Q e w → S (g e) w)
      → Ensures P S (change_error g o)
  Ensures-change_error g (returned p) bad = returned p
  Ensures-change_error g (failed q) bad = failed (bad _ _ q)

  pub Ensures-on_error :
      {P : A → W → Type 0} {Q S : Error → W → Type 0} {o : Outcome W A}
      → Ensures P Q o
      → (h : Error → Action W A) → ((e : Error) (w : W) → Q e w → Ensures P S (h e w))
      → Ensures P S (on_error o h)
  Ensures-on_error (returned p) h handle = returned p
  Ensures-on_error (failed q) h handle = handle _ _ q

  pub Ensures-both :
      {P R : A → W → Type 0} {Q S : Error → W → Type 0} {o : Outcome W A}
      → Ensures P Q o
      → Ensures R S o
      → Ensures (λ a w. P a w × R a w) (λ e w. Q e w × S e w) o
  Ensures-both (returned p) (returned r) = returned (p, r)
  Ensures-both (failed q) (failed s) = failed (q, s)

  -- What is known of a call that has returned this.
  pub Ensures-returns :
      {P : A → W → Type 0} {Q : Error → W → Type 0} (a : A) (w : W)
      → Ensures P Q (returns a w)
      → P a w
  Ensures-returns a w (returned p) = p
