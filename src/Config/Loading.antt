-- ===== src/Config/Loading.antt =====
-- Which environments `Load` accepts, and what it makes of them.
use share_trip.Base.{
  ℕ, ◌*◌, ◌≤◌, ◌<◌, String, false, ◌≡◌, refl, sym, ◌∙◌, ap, if◌then◌else◌, ◌↔◌, inl, inr, some,
  arith,
}
use share_trip.Base.Int.{ℤ, pos, ltb_ℤ}
use share_trip.Base.Text.{is_empty}
use share_trip.Result.{ok, Result-cases}
use share_trip.Config.{
  Environment, Config, env_or, atoi, parse_int, port_refused, timeout_refused, mul_int64, filled,
  load, check_required, millisecond,
}

-- The value of a variable, or its default where it is empty or not set.
abbrev pub or_default : String → String → String
or_default String.[] default = default
or_default (String.◌∷◌ c s) default = String.◌∷◌ c s

if-eq-or_default : (s default : String) → (if is_empty s then default else s) ≡ or_default s default
if-eq-or_default String.[] default = refl
if-eq-or_default (String.◌∷◌ c s) default = refl

pub env_or-eq-or_default :
    (getenv : Environment) (key default : String)
    → env_or getenv key default ≡ or_default (getenv key) default
unfolding env_or
env_or-eq-or_default getenv key default = if-eq-or_default (getenv key) default

-- The settings that the variables and the three numbers are to give.
unfoldable pub loaded : Environment → (port timeout retries : ℕ) → Config
loaded getenv port timeout retries = record {
  http_addr = or_default (getenv "HTTP_ADDR") ":8080";
  database = record {
    host = getenv "DB_HOST";
    port = pos port;
    user = getenv "DB_USER";
    password = getenv "DB_PASSWORD";
    name = getenv "DB_NAME";
    ssl_mode = or_default (getenv "DB_SSLMODE") "disable";
  };
  contract_service_url = getenv "CONTRACT_SERVICE_BASE_URL";
  kafka_brokers = getenv "KAFKA_BROKERS";
  trip_events_topic = or_default (getenv "TRIP_EVENTS_TOPIC") "trip.events";
  request_timeout = pos (timeout * millisecond);
  retry_attempts = pos retries;
  keycloak_issuer = getenv "KEYCLOAK_ISSUER";
  keycloak_client_id = or_default (getenv "KEYCLOAK_CLIENT_ID") "sharetrip-api";
  keycloak_client_secret = getenv "KEYCLOAK_CLIENT_SECRET";
}

-- The variables without a default, none of them empty.
pub record Required (getenv : Environment) : Type 0 where
  pub host : is_empty (getenv "DB_HOST") ≡ false
  pub user : is_empty (getenv "DB_USER") ≡ false
  pub password : is_empty (getenv "DB_PASSWORD") ≡ false
  pub name : is_empty (getenv "DB_NAME") ≡ false
  pub contracts : is_empty (getenv "CONTRACT_SERVICE_BASE_URL") ≡ false
  pub brokers : is_empty (getenv "KAFKA_BROKERS") ≡ false
  pub issuer : is_empty (getenv "KEYCLOAK_ISSUER") ≡ false
  pub secret : is_empty (getenv "KEYCLOAK_CLIENT_SECRET") ≡ false

check_required-eq-ok :
    (getenv : Environment) (port timeout retries : ℕ) {c : Config}
    → check_required (loaded getenv port timeout retries) ≡ ok c
    → Required getenv × (c ≡ loaded getenv port timeout retries)
unfolding check_required loaded
check_required-eq-ok getenv port timeout retries h = (ground arith, ground arith)

Required-check_required :
    (getenv : Environment) (port timeout retries : ℕ)
    → Required getenv
    → check_required (loaded getenv port timeout retries) ≡ ok (loaded getenv port timeout retries)
unfolding check_required loaded
Required-check_required getenv port timeout retries r =
    rw (r.host, r.user, r.password, r.name, r.contracts, r.brokers, r.issuer, r.secret)

-- What is required of the variables, and the numbers in them.
pub record Accepts (getenv : Environment) (port timeout retries : ℕ) : Type 0 where
  pub has_port : atoi (or_default (getenv "DB_PORT") "6544") ≡ some (pos port)
  pub has_timeout :
      atoi (or_default (getenv "CONTRACT_SERVICE_TIMEOUT_MS") "2000") ≡ some (pos timeout)
  pub has_retries :
      atoi (or_default (getenv "CONTRACT_SERVICE_RETRY_COUNT") "2") ≡ some (pos retries)
  pub port_low : 1 ≤ port
  pub port_high : port ≤ 65535
  pub timeout_low : 1 ≤ timeout
  pub timeout_high : timeout * millisecond < 0x8000000000000000
  pub required : Required getenv

port_refused-eq-false :
    (n : ℤ) → port_refused n ≡ false → (m : ℕ) × (n ≡ pos m) × (1 ≤ m) × (m ≤ 65535)
unfolding port_refused
port_refused-eq-false (pos m) h = (m, refl, ground arith, ground arith)
port_refused-eq-false (ℤ.negsuc m) h = absurd (ground arith)

timeout_refused-eq-false :
    (n : ℤ)
    → timeout_refused n ≡ false
    → (m : ℕ) × (n ≡ pos m) × (1 ≤ m) × (m * millisecond < 0x8000000000000000)
unfolding timeout_refused
timeout_refused-eq-false (pos m) h = (m, refl, ground arith, ground arith)
timeout_refused-eq-false (ℤ.negsuc m) h = absurd (ground arith)

nonneg : (n : ℤ) → ltb_ℤ n (pos 0) ≡ false → (m : ℕ) × (n ≡ pos m)
nonneg (pos m) h = (m, refl)
nonneg (ℤ.negsuc m) h = absurd (ground arith)

-- A product that fits is not wrapped.
mul_int64-eq : (a b : ℕ) → a * b < 0x8000000000000000 → mul_int64 a b ≡ pos (a * b)
unfolding mul_int64
mul_int64-eq a b h = ground arith

parse_int-eq-ok :
    (getenv : Environment) (key fallback : String) {n : ℤ}
    → parse_int getenv key fallback ≡ ok n
    → atoi (or_default (getenv key) fallback) ≡ some n
unfolding parse_int
parse_int-eq-ok getenv key fallback h =
    let same = env_or-eq-or_default getenv key fallback in ground arith

filled-eq-loaded :
    (getenv : Environment) (port timeout retries : ℕ)
    → timeout * millisecond < 0x8000000000000000
    → filled getenv (pos port) (pos timeout) (pos retries) ≡ loaded getenv port timeout retries
unfolding loaded filled
filled-eq-loaded getenv port timeout retries h = rw (
  env_or-eq-or_default getenv "HTTP_ADDR" ":8080",
  env_or-eq-or_default getenv "DB_SSLMODE" "disable",
  env_or-eq-or_default getenv "TRIP_EVENTS_TOPIC" "trip.events",
  env_or-eq-or_default getenv "KEYCLOAK_CLIENT_ID" "sharetrip-api",
  mul_int64-eq timeout millisecond h,
)

parse_int-eq :
    (getenv : Environment) (key fallback : String) {n : ℤ}
    → atoi (or_default (getenv key) fallback) ≡ some n
    → parse_int getenv key fallback ≡ ok n
unfolding parse_int
parse_int-eq getenv key fallback h =
    let same = env_or-eq-or_default getenv key fallback in ground arith

numbers_accepted :
    (getenv : Environment) (port timeout retries : ℕ)
    → Accepts getenv port timeout retries
    → (port_refused (pos port) ≡ false)
      × (timeout_refused (pos timeout) ≡ false)
      × (ltb_ℤ (pos retries) (pos 0) ≡ false)
unfolding port_refused timeout_refused
numbers_accepted getenv port timeout retries a = (ground arith, ground arith, ground arith)

module _ (getenv : Environment) where
  Accepts-load :
      (port timeout retries : ℕ)
      → Accepts getenv port timeout retries
      → load getenv ≡ ok (loaded getenv port timeout retries)
  unfolding load
  Accepts-load port timeout retries a =
      let p = parse_int-eq getenv _ _ a.has_port in
      let t = parse_int-eq getenv _ _ a.has_timeout in
      let r = parse_int-eq getenv _ _ a.has_retries in
      let n = numbers_accepted getenv port timeout retries a in
      let e = filled-eq-loaded getenv port timeout retries a.timeout_high in
      let c = Required-check_required getenv port timeout retries a.required in ground arith

  pub load-Accepts :
      {cfg : Config}
      → load getenv ≡ ok cfg
      → (port timeout retries : ℕ) × Accepts getenv port timeout retries
        × (cfg ≡ loaded getenv port timeout retries)
  unfolding load
  load-Accepts {cfg} h = elim (Result-cases (parse_int getenv "DB_PORT" "6544")) [
    | inr (x, e) ↦ absurd (ground arith)
    | inl (port, p) ↦ elim (Result-cases (parse_int getenv "CONTRACT_SERVICE_TIMEOUT_MS" "2000")) [
      | inr (x, e) ↦ absurd (ground arith)
      | inl (timeout, t) ↦
          elim (Result-cases (parse_int getenv "CONTRACT_SERVICE_RETRY_COUNT" "2")) [
            | inr (x, e) ↦ absurd (ground arith)
            | inl (retries, r) ↦
                let (port', e₁, lo, hi) = port_refused-eq-false port (ground arith) in
                let (timeout', e₂, some_time, fits) =
                  timeout_refused-eq-false timeout (ground arith) in
                let (retries', e₃) = nonneg retries (ground arith) in
                let e = filled-eq-loaded getenv port' timeout' retries' fits in
                let (required, same) =
                  check_required-eq-ok getenv port' timeout' retries' {c = cfg} (ground arith) in
                (
                  port',
                  timeout',
                  retries',
                  record {
                    has_port = parse_int-eq-ok getenv _ _ p ∙ ap some e₁;
                    has_timeout = parse_int-eq-ok getenv _ _ t ∙ ap some e₂;
                    has_retries = parse_int-eq-ok getenv _ _ r ∙ ap some e₃;
                    port_low = lo;
                    port_high = hi;
                    timeout_low = some_time;
                    timeout_high = fits;
                    required = required;
                  },
                  same,
                )
          ]
    ]
  ]

  -- `Load` succeeds exactly for numbers in range and no required variable empty, and then returns
  -- the settings with their defaults and an exact timeout.
  pub load_iff :
      (cfg : Config)
      → (load getenv ≡ ok cfg) ↔ (
          (port timeout retries : ℕ) × Accepts getenv port timeout retries
          × (cfg ≡ loaded getenv port timeout retries))
  load_iff cfg = (
    load-Accepts,
    λ (port, timeout, retries, a, e). Accepts-load port timeout retries a ∙ ap ok (sym e),
  )
