-- ===== src/Router/Access.antt =====
-- Which requests reach the handlers of a user's data.
use mileage_core.Base.{
  Bool, true, false, arith, if◌then◌else◌, ◌&&◌, ◌≡◌, refl, ◌⊎◌, inl, inr, some, List, [], ◌∷◌,
}
use mileage_core.Platform.{Platform}
use mileage_core.Handler.{Request}
use mileage_core.Config.{Config}
use mileage_core.Router.{
  Endpoint, health, metrics, signup, login, balance, transactions, grant, redeem, achievements,
  profile, Route, routes, Echo,
}

-- The endpoints that read or change what belongs to a user.
abbrev pub NeedsUser : Endpoint → Type 0
NeedsUser health = ⊥
NeedsUser metrics = ⊥
NeedsUser signup = ⊥
NeedsUser login = ⊥
NeedsUser (profile name) = ⊥
NeedsUser _ = Unit

abbrev pub Listed : Route → List Route → Type 0
Listed r [] = ⊥
Listed r (x ∷ xs) = (r ≡ x) ⊎ Listed r xs

-- What the router relies on of echo: a request gets one of the registered routes.
pub record Routing (p : Platform) (echo : Echo p) : Type 0 where
  pub find_law : (rs : List Route) (c : Request) (r : Route) → echo.find rs c ≡ some r → Listed r rs

-- NeedsUser as a test.
abbrev needs_user : Endpoint → Bool
needs_user health = false
needs_user metrics = false
needs_user signup = false
needs_user login = false
needs_user (profile name) = false
needs_user _ = true

needs_user_sound : (e : Endpoint) → NeedsUser e → needs_user e ≡ true
needs_user_sound health needs = absurd needs
needs_user_sound metrics needs = absurd needs
needs_user_sound signup needs = absurd needs
needs_user_sound login needs = absurd needs
needs_user_sound (profile name) needs = absurd needs
needs_user_sound balance needs = refl
needs_user_sound transactions needs = refl
needs_user_sound grant needs = refl
needs_user_sound redeem needs = refl
needs_user_sound achievements needs = refl

-- Whether a route needs no user or is protected.
abbrev is_guarded : Route → Bool
is_guarded r = if needs_user r.endpoint then r.is_protected else true

all_guarded : List Route → Bool
all_guarded [] = true
all_guarded (r ∷ rs) = is_guarded r && all_guarded rs

Listed-guarded :
    (r : Route) (rs : List Route) → all_guarded rs ≡ true → Listed r rs → is_guarded r ≡ true
unfolding all_guarded
Listed-guarded r [] g listed = absurd listed
Listed-guarded r (x ∷ xs) g (inl is) = rw is (ground arith)
Listed-guarded r (x ∷ xs) g (inr listed) = Listed-guarded r xs (ground arith) listed

routes_guarded : all_guarded routes ≡ true
unfolding all_guarded
routes_guarded = refl

pub route-protected :
    (p : Platform) (echo : Echo p) (routing : Routing p echo) (c : Request) (r : Route)
    → echo.find routes c ≡ some r
    → NeedsUser r.endpoint
    → r.is_protected ≡ true
route-protected p echo routing c r found needs =
    let guarded : is_guarded r ≡ true =
      Listed-guarded r routes routes_guarded (routing.find_law routes c r found) in
    rw (needs_user_sound r.endpoint needs) at guarded
