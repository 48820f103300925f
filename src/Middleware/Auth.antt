-- ===== src/Middleware/Auth.antt =====
-- internal/server/middleware/auth.go: the JWT middleware.
pub mod Access
pub mod Session
use Prim.Native.Char.{code}
use text.Mathlib.Text.{◌==◌ as str_eq}
use mileage_core.Base.{String, Option, none, some, [], ◌==◌, if◌then◌else◌}
use mileage_core.Effect.{returns}
use mileage_core.Platform.{Platform}
use mileage_core.Handler.{Response, plain_error}
use mileage_core.Middleware.{
  Serve, SigningMethod, hmac, other_method, ClaimValue, string_value, other_value, TokenClaims,
  map_claims, other_claims, Token, Web,
}

-- strings.SplitN(s, " ", 2), with `none` for a result of one part.
unfoldable pub cut_space : String → Option (String × String)
cut_space String.[] = none
cut_space (String.◌∷◌ c s) =
    let rest = cut_space s in
    let longer : Option (String × String) = elim rest [
      | none ↦ none
      | some (a, b) ↦ some (String.◌∷◌ c a, b)
    ] in
    if code c == 32 then some ("", s) else longer

-- The key function: the secret for an HMAC method, an error for any other.
abbrev pub key_for : String → SigningMethod → Option String
key_for secret hmac = some secret
key_for secret other_method = none

-- A response with status 401.
abbrev pub unauthorized : String → Response
unauthorized message = record {
  status = 401;
  body = plain_error "UNAUTHORIZED" message;
  counted = [];
  headers = [];
}

module _ (p : Platform) (web : Web p) (secret : String) (next : Serve p) where
  open web use {parse_token}

  -- From the claim "sub" on.
  abbrev pub as_user : Option ClaimValue → Serve p
  as_user (some (string_value id)) c w =
      if str_eq id ""
      then returns (unauthorized "invalid user id in token") w
      else next (record c { user_id = some id }) w
  as_user (some other_value) c w = returns (unauthorized "invalid user id in token") w
  as_user none c w = returns (unauthorized "invalid user id in token") w

  abbrev pub with_claims : TokenClaims → Serve p
  with_claims other_claims c w = returns (unauthorized "invalid token claims") w
  with_claims (map_claims sub) c w = as_user sub c w

  -- From the parser's result on.
  abbrev pub with_token : Option Token → Serve p
  with_token none c w = returns (unauthorized "invalid or expired token") w
  with_token (some t) c w =
      if t.valid
      then with_claims t.claims c w
      else returns (unauthorized "invalid or expired token") w

  -- From the parts of the header on.
  unfoldable pub with_parts : Option (String × String) → Serve p
  with_parts none c w = returns (unauthorized "invalid authorization header format") w
  with_parts (some (scheme, token)) c w =
      let (parsed, w') = parse_token token (key_for secret) w in
      if str_eq scheme "Bearer"
      then with_token parsed c w'
      else returns (unauthorized "invalid authorization header format") w

  -- Auth
  unfoldable pub authenticated : Serve p
  authenticated c w =
      let given = c.header "Authorization" in
      if str_eq given ""
      then returns (unauthorized "missing authorization header") w
      else with_parts (cut_space given) c w
