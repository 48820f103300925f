-- ===== src/Middleware/Auth/Access.antt =====
-- Who passes the JWT middleware.
use text.Mathlib.Text.{◌==◌ as str_eq}
use mileage_core.Base.{String, true, ◌≡◌, ◌≢◌, Option, some}
use mileage_core.Effect.{Outcome, returns}
use mileage_core.Platform.{Platform}
use mileage_core.Handler.{Request, Response}
use mileage_core.Middleware.{
  Serve, SigningMethod, hmac, string_value, TokenClaims, map_claims, Token, Web,
}
use mileage_core.Middleware.Auth.{cut_space, unauthorized}

-- What the middleware relies on of golang-jwt: a token that is parsed as valid has a signature that
-- verifies under its method and the key that the key function gives for that method.
pub record Jwt (p : Platform) (web : Web p) : Type 1 where
  pub Verified : SigningMethod → String → String → TokenClaims → Type 0
  pub parse_law :
      (token : String) (keys : SigningMethod → Option String) (w : p.World) (t : Token)
      → (web.parse_token token keys w).0 ≡ some t
      → t.valid ≡ true
      → (m : SigningMethod) × (k : String) × (keys m ≡ some k) × Verified m k token t.claims

module _ (p : Platform) (web : Web p) (jwt : Jwt p web) (secret : String) (next : Serve p)
    (c : Request) (w : p.World) where
  open p use {World}
  open jwt use {Verified}

  -- The request goes on to the handler, as the user of a token that is signed with HMAC under the
  -- secret.
  abbrev pub Admitted : Outcome World Response → Type 0
  Admitted o =
      (token id : String) × (w' : World) × (cut_space (c.header "Authorization")
        ≡ some ("Bearer", token))
      × Verified hmac secret token (map_claims (some (string_value id)))
      × (id ≢ "")
      × (o ≡ next (record c { user_id = some id }) w')

  -- The request is answered by 401, and the handler is not called.
  abbrev pub Rejected : Outcome World Response → Type 0
  Rejected o = (message : String) × (w' : World) × (o ≡ returns (unauthorized message) w')
