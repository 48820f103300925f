-- ===== src/Middleware/Auth/Session.antt =====
-- The tokens of Login at the JWT middleware.
use Prim.Native.Char.{code}
use Prim.Native.String.append.{nil, cons}
use text.Mathlib.Text.{◌==◌ as str_eq}
use mileage_core.Base.{String, ◌<>◌, true, false, ◌≡◌, ◌≢◌, refl, sym, ap, ◌∙◌, Option, some, ◌==◌}
use mileage_core.Base.Text.{text_differs}
use mileage_core.Base.Int.{ℤ, ◌+ℤ◌, ◌<ℤ◌}
use mileage_core.Effect.{Ensures, Ensures-weaken}
use mileage_core.Platform.{Platform, done}
use mileage_core.Mysql.Tx.{background}
use mileage_core.Mysql.UserRepository.{Identity, Claims}
use mileage_core.Usecase.Auth.{JwtConfig, Credentials, unix, login}
use mileage_core.Usecase.Auth.Login.{Directory, looked_up, login_lem}
use mileage_core.Handler.{Request}
use mileage_core.Middleware.{Serve, SigningMethod, hmac, string_value, map_claims, Web}
use mileage_core.Middleware.Auth.{cut_space, key_for, with_parts, authenticated}

abbrev HasNoSpace : String → Type 0
HasNoSpace String.[] = Unit
HasNoSpace (String.◌∷◌ c s) = (code c == 32 ≡ false) × HasNoSpace s

cut_space-append : (a b : String) → HasNoSpace a → cut_space (a <> (" " <> b)) ≡ some (a, b)
unfolding cut_space
cut_space-append String.[] b h =
    ap cut_space (nil (" " <> b)) ∙ ap cut_space (cons " " "" b) ∙ rw (nil b) refl
cut_space-append (String.◌∷◌ c a) b (no_space, h) =
    ap cut_space (cons c a (" " <> b)) ∙ (rw (no_space, cut_space-append a b h) refl)

-- What the middleware relies on of golang-jwt for the tokens of generateToken: a token that is
-- signed with HS256 under the key that the key function gives is valid until it expires.
pub record Accepts (p : Platform) (i : Identity p) (web : Web p) : Type 0 where
  -- The time in seconds at which the parser looks at a token.
  pub time : p.World → ℤ
  pub accept_law :
      (secret token : String) (claims : Claims) (keys : SigningMethod → Option String) (w : p.World)
      → i.signed_string secret claims ≡ done token
      → keys hmac ≡ some secret
      → time w <ℤ claims.exp
      → (web.parse_token token keys w).0
        ≡ some (record { valid = true; claims = map_claims (some (string_value claims.sub)) })

bearer_given : (x : String) → "Bearer" <> x ≢ ""
bearer_given x e = cc (sym (λ i. cons "B" "earer" x i) ∙ e)

module _ (p : Platform) (i : Identity p) (web : Web p) (a : Accepts p i web)
    (config : JwtConfig) where
  open p use {World}

  -- A token that is signed for a non-empty user and has not expired runs the handler as that user.
  pub bearer_lem :
      (next : Serve p) (c : Request) (v : World) (claims : Claims) (token : String)
      → c.header "Authorization" ≡ "Bearer" <> (" " <> token)
      → claims.sub ≢ ""
      → i.signed_string config.secret claims ≡ done token
      → a.time v <ℤ claims.exp
      → authenticated p web config.secret next c v
        ≡ next
            (record c { user_id = some claims.sub })
            (web.parse_token token (key_for config.secret) v).1
  unfolding authenticated with_parts
  bearer_lem next c v claims token sent named signed early =
      let given : str_eq (c.header "Authorization") "" ≡ false =
        text_differs _ _ (λ e. bearer_given (" " <> token) (sym sent ∙ e)) in
      let cut : cut_space (c.header "Authorization") ≡ some ("Bearer", token) =
        ap cut_space sent
        ∙ cut_space-append "Bearer" token (refl, (refl, (refl, (refl, (refl, (refl, tt)))))) in
      rw
        (
          given,
          cut,
          a.accept_law config.secret token claims (key_for config.secret) v signed refl early,
          text_differs claims.sub "" named,
        )
        refl

  module _ (d : Directory p i) where
    -- A token that Login has returned for a non-empty user passes the JWT middleware in any world in
    -- which the parser's time is before its expiry, the configured time after the clock as it was
    -- read once Login had looked up the user: sent in the header "Authorization: Bearer <token>",
    -- the request runs the handler as that user.
    pub login-authenticated :
        (input : Credentials) (w : World)
        → Ensures
            (λ out w'.
              (next : Serve p) (c : Request) (v : World)
              → c.header "Authorization" ≡ "Bearer" <> (" " <> out.token)
              → out.user_id ≢ ""
              → a.time v <ℤ unix ((i.now (looked_up p i d config input w)).0 +ℤ config.expiry_time)
              → (v' : World) × (authenticated p web config.secret next c v
                  ≡ next (record c { user_id = some out.user_id }) v'))
            (λ e w'. Unit {0})
            (login p i config background input w)
    login-authenticated input w =
        Ensures-weaken (login_lem p i d config input w)
          (λ out w' (known, (claims, named, lives, signed)) next c v sent user early. (
            (web.parse_token out.token (key_for config.secret) v).1,
            rw (← named) (
                bearer_lem next c v claims out.token sent (rw (← named) at user) signed
                  (rw (← lives) at early)),
          ))
          (λ e w' k. tt)
