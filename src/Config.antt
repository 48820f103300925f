-- ===== src/Config.antt =====
-- internal/config/config.go: the configuration from the environment. `Environment` is os.Getenv,
-- with "" for a variable that is not set. A float64 of a rate is kept as the integer it is made of.
pub mod Values
use text.Mathlib.Text.{◌==◌ as str_eq}
use mileage_core.Base.{String, ◌<>◌, Bool, true, false, if◌then◌else◌}
use mileage_core.Base.Int.{ℤ, pos, times}
use mileage_core.Base.Int64.{wrap64}
use mileage_core.GoText.{atoi}
use mileage_core.Usecase.Auth.{JwtConfig}

abbrev pub Environment : Type 0
Environment = String → String

-- DBConfig
pub record DbConfig : Type 0 where
  pub host : String
  pub port : String
  pub user : String
  pub password : String
  pub name : String

-- RedisConfig
pub record RedisConfig : Type 0 where
  pub addr : String

-- RateLimitConfig
pub record RateLimitConfig : Type 0 where
  pub rps : ℤ
  pub burst : ℤ

-- Config
pub record Config : Type 0 where
  pub port : String
  pub db : DbConfig
  pub redis : RedisConfig
  pub jwt : JwtConfig
  pub rate_limit : RateLimitConfig

-- DSN
unfoldable pub dsn : DbConfig → String
dsn c =
    c.user
    <> (":"
        <> (c.password
            <> ("@tcp("
                <> (c.host
                    <> (":"
                        <> (c.port
                            <> (")/" <> (c.name <> "?parseTime=true&loc=UTC&charset=utf8mb4"))))))))

-- getEnv
unfoldable pub get_env : Environment → String → String → String
get_env env key default_value = if str_eq (env key) "" then default_value else env key

-- `i, err := strconv.Atoi(v)` and what follows it.
abbrev pub parsed_or : ℤ → ℤ × Bool → ℤ
parsed_or default_value (i, true) = i
parsed_or default_value (i, false) = default_value

-- getEnvInt
unfoldable pub get_env_int : Environment → String → ℤ → ℤ
get_env_int env key default_value =
    if str_eq (env key) "" then default_value else parsed_or default_value (atoi (env key))

-- time.Hour in nanoseconds, and a product of two time.Durations.
unfoldable pub hours : ℤ → ℤ
hours n = wrap64 (times 3600000000000 n)

-- Load
unfoldable pub load : Environment → Config
load env = record {
  port = get_env env "PORT" "8080";
  db = record {
    host = get_env env "DB_HOST" "localhost";
    port = get_env env "DB_PORT" "3306";
    user = get_env env "DB_USER" "mileage";
    password = get_env env "DB_PASSWORD" "mileage";
    name = get_env env "DB_NAME" "mileage";
  };
  redis = record { addr = get_env env "REDIS_ADDR" "localhost:6379" };
  jwt = record {
    secret = get_env env "JWT_SECRET" "dev-secret-key";
    expiry_time = hours (get_env_int env "JWT_EXPIRY_HOURS" (pos 24));
  };
  rate_limit = record {
    rps = get_env_int env "RATE_LIMIT_RPS" (pos 10);
    burst = get_env_int env "RATE_LIMIT_BURST" (pos 20);
  };
}
