-- ===== src/Middleware.antt =====
-- internal/server/middleware, over the outside code that it calls: the limiter of x/time/rate, the
-- JWT parser, zap, Prometheus, and what echo reports before a response is written.
pub mod RequestId
pub mod RateLimit
pub mod Auth
pub mod Logger
pub mod Metrics
use mileage_core.Base.{ℕ, String, Bool, Option, List}
use mileage_core.Base.Int.{ℤ}
use mileage_core.Effect.{Action}
use mileage_core.Platform.{Platform}
use mileage_core.Handler.{Request, Response, Body}

-- echo.HandlerFunc
abbrev pub Serve : Platform → Type 0
Serve p = Request → Action p.World Response

-- A token.Method: *jwt.SigningMethodHMAC, or another type.
pub data SigningMethod : Type 0 where
  hmac other_method : SigningMethod

-- A value in a jwt.MapClaims: a string, or a value of another type.
pub data ClaimValue : Type 0 where
  string_value : String → ClaimValue
  other_value : ClaimValue

-- token.Claims: a jwt.MapClaims, of which the value under "sub" is read, or another type.
pub data TokenClaims : Type 0 where
  map_claims : Option ClaimValue → TokenClaims
  other_claims : TokenClaims

-- *jwt.Token
pub record Token : Type 0 where
  pub valid : Bool
  pub claims : TokenClaims

pub data Level : Type 0 where
  info_level warn_level error_level fatal_level : Level

-- A log line of the Logger, with the fields that do not depend on the clock or the connection.
pub record LogEntry : Type 0 where
  pub level : Level
  pub message : String
  pub method : String
  pub path : String
  pub status : ℕ
  pub request_id : String

-- A CounterVec or a HistogramVec, with its labels and with the bounds of its buckets in milliseconds.
pub record Collector : Type 0 where
  pub name : String
  pub help : String
  pub labels : List String
  pub buckets : List ℕ

pub record Web (p : Platform) : Type 0 where
  -- limiter.Allow(), for the one limiter that RateLimit creates
  pub allow : p.World → Bool × p.World
  -- jwt.Parse with a key function; `none` is an error
  pub parse_token : String → (SigningMethod → Option String) → p.World → Option Token × p.World
  -- time.Now() in nanoseconds
  pub now : p.World → ℤ × p.World
  -- zap; and WithLabelValues with Inc, and with Observe of a time in nanoseconds
  pub write_log : LogEntry → p.World → p.World
  pub increment : Collector → List String → p.World → p.World
  pub observe : Collector → List String → ℤ → p.World → p.World
  -- c.Response().Status before a response is written
  pub initial_status : ℕ
