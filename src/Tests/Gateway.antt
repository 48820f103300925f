-- ===== src/Tests/Gateway.antt =====
-- The code around the service on the memory platform: echo, and tokens that show their user.
use text.Mathlib.Text.{◌==◌ as str_eq}
use Prim.Native.String.append.{nil, cons}
use text.Mathlib.TextEquality.{eq_iff}
use text.Mathlib.TextPositions.{eq_refl}
use mileage_core.Base.{
  Bool-cases, arith, sym, ◌∙◌, String, ◌<>◌, true, ◌≡◌, ◌≢◌, refl, ap, inl, inr, Option, none, some,
  List, [], ◌∷◌, if◌then◌else◌, ◌&&◌,
}
use mileage_core.Base.Int.{pos}
use mileage_core.Effect.{returns}
use mileage_core.Platform.{done}
use mileage_core.Handler.{Request, status_text}
use mileage_core.Middleware.{
  Serve, SigningMethod, hmac, TokenClaims, map_claims, string_value, Token, Web,
}
use mileage_core.Middleware.Auth.Access.{Jwt}
use mileage_core.Middleware.Auth.Session.{Accepts}
use mileage_core.Config.{Environment, Config, load}
use mileage_core.GoText.{itoa}
use mileage_core.Router.{Endpoint, Route, routes, post, under, protected, Echo}
use mileage_core.Router.Access.{Routing, Listed}
use mileage_core.Router.Refusal.{Passing}
use mileage_core.Tests.Memory.{memory}
use mileage_core.Tests.Auth.{identity, alice}

-- What follows a text in another one.
unfoldable pub after_prefix : String → String → String
after_prefix String.[] s = s
after_prefix (String.◌∷◌ c prefix) String.[] = ""
after_prefix (String.◌∷◌ c prefix) (String.◌∷◌ d s) = after_prefix prefix s

after_prefix-append : (a b : String) → after_prefix a (a <> b) ≡ b
unfolding after_prefix
after_prefix-append String.[] b = nil b
after_prefix-append (String.◌∷◌ c a) b =
    ap (after_prefix (String.◌∷◌ c a)) (cons c a b) ∙ after_prefix-append a b

-- The user of a token "token of <user>".
abbrev pub subject : String → String
subject token = after_prefix "token of " token

-- The token that the parser gives for such a text.
abbrev pub token_of : String → Token
token_of token = record { valid = true; claims = map_claims (some (string_value (subject token))) }

unfoldable pub parse : Option String → String → Option Token
parse none token = none
parse (some key) token =
    if str_eq token ("token of " <> subject token) then some (token_of token) else none

abbrev pub web : Web memory
web = record {
  allow = λ m. (true, m);
  parse_token = λ token keys m. (parse (keys hmac) token, m);
  now = λ m. (pos 0, m);
  write_log = λ entry m. m;
  increment = λ v labels m. m;
  observe = λ v labels duration m. m;
  initial_status = 200;
}

-- Such a text counts as signed.
abbrev pub IsSigned : SigningMethod → String → String → TokenClaims → Type 0
IsSigned m key token claims =
    (token ≡ "token of " <> subject token)
    × (claims ≡ map_claims (some (string_value (subject token))))

pub parse_key :
    (key : Option String) (token : String) (t : Token)
    → parse key token ≡ some t
    → (k : String) × (key ≡ some k) × IsSigned hmac k token t.claims
unfolding parse
parse_key none token t parsed = absurd cc
parse_key (some k) token t parsed =
    elim (Bool-cases (str_eq token ("token of " <> subject token))) [
      | inl is ↦
          let given : token_of token ≡ t = ground arith in
          (
            k,
            refl,
            (
              (eq_iff token ("token of " <> subject token)).0 is,
              ap (λ (x : Token). x.claims) (sym given),
            ),
          )
      | inr is_not ↦ absurd (ground arith)
    ]

abbrev pub jwt : Jwt memory web
jwt = record {
  Verified = IsSigned;
  parse_law = λ token keys m t parsed valid.
      let (k, key, signed) = parse_key (keys hmac) token t parsed in (hmac, k, key, signed);
}

parse_signed :
    (secret sub : String) (key : Option String)
    → key ≡ some secret
    → parse key ("token of " <> sub)
      ≡ some (record { valid = true; claims = map_claims (some (string_value sub)) })
unfolding parse
parse_signed secret sub key is =
    rw (is, after_prefix-append "token of " sub, eq_refl ("token of " <> sub)) refl

pub parse_given :
    (secret token sub : String) (key : Option String)
    → done ("token of " <> sub) ≡ done token
    → key ≡ some secret
    → parse key token
      ≡ some (record { valid = true; claims = map_claims (some (string_value sub)) })
parse_given secret token sub key signed is =
    let given : "token of " <> sub ≡ token = cc in rw (← given) (parse_signed secret sub key is)

abbrev pub accepts : Accepts memory identity web
accepts = record {
  time = λ m. pos 0;
  accept_law = λ secret token claims keys m signed key early.
      parse_given secret token claims.sub (keys hmac) signed key;
}

-- A handler that answers with the user that it was called as.
abbrev pub whoami : Serve memory
whoami c w =
    returns
      (record { status = 200; body = status_text (name c.user_id); counted = []; headers = [] }) w
  where
    name : Option String → String
    name none = ""
    name (some id) = id

-- Echo with the routes matched by method and path.
unfoldable pub find : List Route → Request → Option Route
find [] c = none
find (r ∷ rs) c =
    let rest = find rs c in
    if str_eq r.method c.method && str_eq r.path c.path then some r else rest

pub find_law : (rs : List Route) (c : Request) (r : Route) → find rs c ≡ some r → Listed r rs
unfolding find
find_law [] c r found = absurd cc
find_law (x ∷ xs) c r found = elim (Bool-cases (str_eq x.method c.method && str_eq x.path c.path)) [
  | inl is ↦ inl (ground arith)
  | inr is_not ↦ inr (find_law xs c r (ground arith))
]

abbrev pub echo : Echo memory
echo = record {
  find = find;
  unrouted = λ c w.
      returns (record { status = 404; body = status_text "Not Found"; counted = []; headers = [] })
        w;
  recover = λ next. next;
  cors = λ next. next;
  bind_credentials = λ c. some alice;
  bind_posting = λ c. some (record { amount = pos 100; reason = "welcome" });
  bind_event = λ c. none;
  metrics_page =
      λ c w. returns (record { status = 200; body = status_text ""; counted = []; headers = [] }) w;
  profile_page = λ name c w.
      returns (record { status = 200; body = status_text name; counted = []; headers = [] }) w;
}

abbrev pub routing : Routing memory echo
routing = record { find_law = find_law }

-- A grant with this Authorization header.
abbrev pub grant_request : String → Request
grant_request authorization = record {
  user_id = none;
  request_id = none;
  header = λ name.
      if str_eq name "Authorization"
      then authorization
      else if str_eq name "Idempotency-Key"
      then "k"
      else "";
  query_param = λ name. "";
  method = "POST";
  path = "/v1/mileage/grant";
  route = "";
  content = "";
}

abbrev pub environment : Environment
environment name = if str_eq name "JWT_EXPIRY_HOURS" then itoa 48 else ""

abbrev pub sent : Request
sent = grant_request "Bearer token of alice"

abbrev pub settings : Config
settings = load environment

abbrev pub grant_route : Route
grant_route = protected (under "/v1" (post "/mileage/grant" Endpoint.grant))

abbrev pub passing : Passing memory echo
passing = record {
  recover_law = λ next c w w' r is. is;
  cors_law = λ next c w w' r simple is. (r.headers, is);
}

pub not_options : (grant_request "").method ≢ "OPTIONS"
not_options e = cc

pub grant_route_found : echo.find routes sent ≡ some grant_route
unfolding find
grant_route_found = refl
