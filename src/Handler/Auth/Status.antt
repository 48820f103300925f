-- ===== src/Handler/Auth/Status.antt =====
-- What the status of a login request tells.
use Prim.Native.Char.{Char, code, nul}
use Prim.Native.String.append.{cons}
use mileage_core.Base.{
  String, ◌<>◌, true, ◌≡◌, ◌≢◌, ◌⊎◌, refl, sym, ap, ◌∙◌, inl, inr, some, Bool-cases, arith,
}
use mileage_core.Base.Text.{text_differs}
use mileage_core.Errors.{Error}
use mileage_core.Effect.{Outcome, Ensures, returned, failed}
use mileage_core.Platform.{Platform}
use mileage_core.Mysql.UserRepository.{Identity}
use mileage_core.Usecase.Auth.{JwtConfig, Credentials, AuthOutput}
use mileage_core.Usecase.Auth.Login.{
  Directory, LoggedIn, LoginFailed, NotKnown, looked_up, login_lem,
}
use mileage_core.Handler.{Request, Response, auth_response, error_response, get_request_id}
use mileage_core.Handler.Auth.{error_text, is_missing, login_error, auth_answer, handle_login}

first : String → Char
first String.[] = nul
first (String.◌∷◌ c s) = c

find_text : (x : String) → "find user" <> x ≢ "invalid credentials"
unfolding first
find_text x e = omega (arith, ap code (ap first (sym (λ i. cons "f" "ind user" x i) ∙ e)))

sign_text : (x : String) → "generate token" <> x ≢ "invalid credentials"
unfolding first
sign_text x e = omega (arith, ap code (ap first (sym (λ i. cons "g" "enerate token" x i) ∙ e)))

module _ (p : Platform) (i : Identity p) (d : Directory p i) (config : JwtConfig) where
  open p use {World}

  -- By the status of a login: 200 answers a user with these credentials, 401 means that there is
  -- none, in the same words whether the email or the password is wrong, 400 that a field is empty.
  abbrev pub LoginTells : Request → Credentials → World → Response → World → Type 0
  LoginTells c req v r w' =
      ((r.status ≡ 200)
        × ((out : AuthOutput) × LoggedIn p i d config req v out
            × (r.body ≡ auth_response (record { user_id = out.user_id; token = out.token }))))
      ⊎ ((r.status ≡ 401)
          × NotKnown p i d config v req
          × (r.body
              ≡ error_response (record {
                code = "INVALID_CREDENTIALS";
                message = "invalid credentials";
                request_id = get_request_id c;
              })))
      ⊎ ((r.status ≡ 400) × (is_missing req ≡ true))
      ⊎ (r.status ≡ 500)

  failure_lem :
      (c : Request) (req : Credentials) (v w' : World) (e : Error)
      → LoginFailed p i d config req v e
      → LoginTells c req v (login_error p i config c e) w'
  unfolding error_text
  failure_lem c req v w' e (inl (is, unknown)) = rw is (inr (inl (refl, unknown, refl)))
  failure_lem c req v w' e (inr (cause, inl is)) =
      rw (is, text_differs _ _ (find_text (": " <> error_text i.driver_text cause)))
        (inr (inr (inr refl)))
  failure_lem c req v w' e (inr (cause, inr is)) =
      rw (is, text_differs _ _ (sign_text (": " <> error_text i.driver_text cause)))
        (inr (inr (inr refl)))

  answer_lem :
      (c : Request) (req : Credentials) (v : World) {o : Outcome World AuthOutput}
      → Ensures
          (λ out w'. LoggedIn p i d config req v out)
          (λ e w'. LoginFailed p i d config req v e)
          o
      → Ensures
          (LoginTells c req v)
          (λ e w'. ⊥)
          (auth_answer p i config 200 (login_error p i config c) o)
  answer_lem c req v (returned {a = out} h) = returned (inl (refl, (out, h, refl)))
  answer_lem c req v (failed {e = e} {w = w'} h) = returned (failure_lem c req v w' e h)

  -- The login handler answers a bound request with a response, never with an error or a panic. By
  -- its status: with 200, the body has the user that the lookup found under the email, whose hash
  -- matches the password, and a token signed for that user; with 401, the lookup found no user or
  -- the hash does not match, and the body is the same in both cases; with 400, the email or the
  -- password is empty; otherwise the status is 500.
  pub handle_login_lem :
      (c : Request) (req : Credentials) (w : World)
      → Ensures
          (LoginTells c req (looked_up p i d config req w))
          (λ e w'. ⊥)
          (handle_login p i config c (some req) w)
  unfolding handle_login
  handle_login_lem c req w = elim (Bool-cases (is_missing req)) [
    | inl missing ↦ rw missing (returned (inr (inr (inl (refl, missing)))))
    | inr given ↦
        rw given (answer_lem c req (looked_up p i d config req w) (login_lem p i d config req w))
  ]
