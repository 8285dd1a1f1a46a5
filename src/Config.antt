-- ===== src/Config.antt =====
-- internal/config: `Env` and `Load`, on the environment as a function from names to values (`""` for
-- a variable that is not set), with `strconv.Atoi` and 64-bit products.
pub mod Loading
pub mod Numbers
use share_trip.Base.{
  ℕ, zero, suc, ◌+◌, ◌-◌, ◌*◌, ◌/◌, ◌%◌, ◌^◌, String, ◌<>◌, Bool, true, false, ◌&&◌, ◌||◌, Option,
  none, some, ltb, leb, ◌==◌, if◌then◌else◌,
}
use share_trip.Base.Int.{ℤ, pos, negsuc, ltb_ℤ, leb_ℤ}
use share_trip.Base.Text.{is_empty}
use share_trip.GoError.{GoError, message, annotated}
use share_trip.Result.{Result, ok, err}
use Prim.Native.Char.{code}

abbrev pub max_int64 : ℕ
max_int64 = 0x7fffffffffffffff

-- The value of a text of decimal digits, on top of the digits before it.
unfoldable pub digits_value : ℕ → String → Option ℕ
digits_value acc String.[] = some acc
digits_value acc (String.◌∷◌ c s) =
    let rest = digits_value (acc * 10 + (code c - b'0')) s in
    if leb b'0' (code c) && leb (code c) b'9' then rest else none

unfoldable pub number : String → Option ℕ
unfolding digits_value
number s = if is_empty s then none else digits_value 0 s

abbrev pub in_range : Option ℕ → Option ℤ
in_range none = none
in_range (some n) = if leb n max_int64 then some (pos n) else none

-- -(n + 1) for n up to the largest integer; `-0` is zero.
abbrev negated : Option ℕ → Option ℤ
negated none = none
negated (some zero) = some (pos 0)
negated (some (suc n)) = if leb n max_int64 then some (negsuc n) else none

-- `strconv.Atoi`, where `int` has 64 bits.
unfoldable pub atoi : String → Option ℤ
unfolding number
atoi String.[] = none
atoi (String.◌∷◌ c s) =
    if code c == b'-'
    then negated (number s)
    else if code c == b'+'
    then in_range (number s)
    else in_range (number (String.◌∷◌ c s))

pub record DbConfig : Type 0 where
  pub host : String
  pub port : ℤ
  pub user : String
  pub password : String
  pub name : String
  pub ssl_mode : String

pub record Config : Type 0 where
  pub http_addr : String
  pub database : DbConfig
  pub contract_service_url : String
  pub kafka_brokers : String
  pub trip_events_topic : String
  pub request_timeout : ℤ
  pub retry_attempts : ℤ
  pub keycloak_issuer : String
  pub keycloak_client_id : String
  pub keycloak_client_secret : String

abbrev pub Environment : Type 0
Environment = String → String

-- `Env`
unfoldable pub env_or : Environment → String → String → String
env_or getenv key fallback = let value = getenv key in if is_empty value then fallback else value

abbrev pub or_parse_error : String → Option ℤ → Result ℤ
or_parse_error key none =
    err (annotated ("parse " <> key) (message "invalid syntax or value out of range"))
or_parse_error key (some n) = ok n

-- `int64(a) * int64(b)` of two numbers that are not negative, with its wrap-around.
unfoldable pub mul_int64 : ℕ → ℕ → ℤ
mul_int64 a b = let p = a * b % 2 ^ 64 in if leb p max_int64 then pos p else negsuc (2 ^ 64 - 1 - p)

abbrev pub millisecond : ℕ
millisecond = 1000000

infixl 5 ◌>>=◌ ◌>>◌
abbrev ◌>>=◌ : {A B : Type 0} → Result A → (A → Result B) → Result B
ok a >>= f = f a
err e >>= f = err e

abbrev ◌>>◌ : {B : Type 0} → Result (Unit {0}) → Result B → Result B
m >> k = m >>= λ _. k

abbrev pub refuse_if : Bool → String → Result (Unit {0})
refuse_if true text = err (message text)
refuse_if false text = ok tt

abbrev pub to_ℕ : ℤ → ℕ
to_ℕ (pos n) = n
to_ℕ (negsuc n) = 0

unfoldable pub port_refused : ℤ → Bool
port_refused n = ltb_ℤ n (pos 1) || ltb_ℤ (pos 65535) n

unfoldable pub timeout_refused : ℤ → Bool
timeout_refused n = leb_ℤ n (pos 0) || ltb_ℤ (pos (max_int64 / millisecond)) n

module _ (getenv : Environment) where
  unfoldable pub parse_int : String → String → Result ℤ
  parse_int key fallback = or_parse_error key (atoi (env_or getenv key fallback))

  -- The record that `Load` fills once the numbers are read.
  unfoldable pub filled : (port timeout retries : ℤ) → Config
  filled port timeout retries = record {
    http_addr = env_or getenv "HTTP_ADDR" ":8080";
    database = record {
      host = getenv "DB_HOST";
      port = port;
      user = getenv "DB_USER";
      password = getenv "DB_PASSWORD";
      name = getenv "DB_NAME";
      ssl_mode = env_or getenv "DB_SSLMODE" "disable";
    };
    contract_service_url = getenv "CONTRACT_SERVICE_BASE_URL";
    kafka_brokers = getenv "KAFKA_BROKERS";
    trip_events_topic = env_or getenv "TRIP_EVENTS_TOPIC" "trip.events";
    request_timeout = mul_int64 (to_ℕ timeout) millisecond;
    retry_attempts = retries;
    keycloak_issuer = getenv "KEYCLOAK_ISSUER";
    keycloak_client_id = env_or getenv "KEYCLOAK_CLIENT_ID" "sharetrip-api";
    keycloak_client_secret = getenv "KEYCLOAK_CLIENT_SECRET";
  }

-- The tests for what is required, in their order.
unfoldable pub check_required : Config → Result Config
check_required cfg = do
  refuse_if (is_empty cfg.database.host) "DB_HOST is required"
  refuse_if (is_empty cfg.database.user) "DB_USER is required"
  refuse_if (is_empty cfg.database.password) "DB_PASSWORD is required"
  refuse_if (is_empty cfg.database.name) "DB_NAME is required"
  refuse_if (is_empty cfg.contract_service_url) "CONTRACT_SERVICE_BASE_URL is required"
  refuse_if (is_empty cfg.kafka_brokers) "KAFKA_BROKERS is required"
  refuse_if (is_empty cfg.keycloak_issuer) "KEYCLOAK_ISSUER is required"
  refuse_if (is_empty cfg.keycloak_client_secret) "KEYCLOAK_CLIENT_SECRET is required"
  ok cfg

unfoldable pub load : Environment → Result Config
load getenv = do
  port ← parse_int getenv "DB_PORT" "6544"
  refuse_if (port_refused port) "DB_PORT must be between 1 and 65535"
  timeout ← parse_int getenv "CONTRACT_SERVICE_TIMEOUT_MS" "2000"
  refuse_if (timeout_refused timeout)
      "CONTRACT_SERVICE_TIMEOUT_MS must be positive and fit in time.Duration"
  retries ← parse_int getenv "CONTRACT_SERVICE_RETRY_COUNT" "2"
  refuse_if (ltb_ℤ retries (pos 0)) "CONTRACT_SERVICE_RETRY_COUNT must not be negative"
  check_required (filled getenv port timeout retries)
