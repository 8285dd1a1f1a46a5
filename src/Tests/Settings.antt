-- ===== src/Tests/Settings.antt =====
-- The configuration.
use share_trip.Base.{ℕ, ◌||◌, ◌≡◌, refl, ◌↔◌, if◌then◌else◌, str_eq}
use share_trip.Result.{ok}
use share_trip.Base.Int.{pos}
use share_trip.Process.{contracts}
use share_trip.Config.{Config, Environment, load}
use share_trip.Process.Settings.{IsConfigured, load-IsConfigured}
use share_trip.Config.Loading.{Accepts, loaded, load_iff}

-- The numbers have their defaults, every other variable is set.
abbrev pub variables : Environment
variables name =
    if str_eq name "DB_PORT"
      || (str_eq name "CONTRACT_SERVICE_TIMEOUT_MS" || str_eq name "CONTRACT_SERVICE_RETRY_COUNT")
    then ""
    else "x"

abbrev settings : Config
settings = loaded variables 6544 2000 2

load_returns : load variables ≡ ok settings
unfolding load share_trip.Config.parse_int share_trip.Config.atoi share_trip.Config.env_or
    share_trip.Config.port_refused share_trip.Config.timeout_refused
    share_trip.Config.check_required share_trip.Config.filled loaded share_trip.Config.mul_int64
load_returns = refl

load_iff_example : (load variables ≡ ok settings) ↔ (
    (port timeout retries : ℕ) × Accepts variables port timeout retries
    × (settings ≡ loaded variables port timeout retries))
load_iff_example = load_iff variables settings

-- With the defaults the contract service is asked for two seconds, and twice more.
contracts_settings :
    ((contracts settings).timeout ≡ pos 2000000000)
    × ((contracts settings).retry_count ≡ 2)
    × ((contracts settings).retry_wait_time ≡ 200000000)
unfolding loaded share_trip.Contract.new_client
contracts_settings = (refl, refl, refl)

load-IsConfigured_example : IsConfigured variables settings
load-IsConfigured_example = load-IsConfigured variables load_returns
