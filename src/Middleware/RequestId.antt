-- ===== src/Middleware/RequestId.antt =====
-- internal/server/middleware/request_id.go. The header of a response that echo itself writes for an
-- error is not shown.
use text.Mathlib.Text.{◌==◌ as str_eq}
use mileage_core.Base.{String, some, ◌∷◌, if◌then◌else◌}
use mileage_core.Effect.{Outcome, returns, fails, panics}
use mileage_core.Platform.{Platform}
use mileage_core.Handler.{Response}
use mileage_core.Middleware.{Serve}

-- requestIDHeader
abbrev pub request_id_header : String
request_id_header = "X-Request-Id"

-- c.Response().Header().Set, in the response that is written later.
abbrev pub with_header : {W : Type 0} → String → String → Outcome W Response → Outcome W Response
with_header name value (returns r w) = returns (record r { headers = (name, value) ∷ r.headers }) w
with_header name value (fails e w) = fails e w
with_header name value (panics w) = panics w

module _ (p : Platform) where
  open p use {new_ulid}

  -- The request under its identifier, and the header.
  abbrev pub tagged : Serve p → String → Serve p
  tagged next id c w = with_header request_id_header id (next (record c { request_id = some id }) w)

  -- RequestID
  unfoldable pub with_request_id : Serve p → Serve p
  with_request_id next c w =
      let given = c.header request_id_header in
      let (fresh, w') = new_ulid w in
      if str_eq given "" then tagged next fresh c w' else tagged next given c w
