-- ===== src/Process/Settings.antt =====
-- From the environment to the parts: what the contract client and the Keycloak middleware are given.
use share_trip.Base.{ℕ, ◌*◌, ◌≤◌, String, false, ◌≡◌, refl, ap, ◌∙◌, some, [], ◌∷◌}
use share_trip.Base.Int.{pos}
use share_trip.Base.Text.{is_empty}
use share_trip.Result.{ok}
use share_trip.World.{World, next}
use share_trip.Config.{Environment, Config, atoi, load, millisecond}
use share_trip.Config.Loading.{or_default, loaded, load-Accepts}
use share_trip.Contract.{new_client}
use share_trip.Middleware.Keycloak.{
  Keycloak, KeycloakConfig, token_request, read_token, refresh_access_token,
}
use share_trip.Process.{contracts, keycloak_config}

-- A value with a default that is not empty.
or_default_filled :
    (s default : String) → is_empty default ≡ false → is_empty (or_default s default) ≡ false
or_default_filled String.[] default h = h
or_default_filled (String.◌∷◌ c s) default h = refl

-- With an issuer and a client id the exchange is made, and its outcome is Keycloak's.
refresh-eq-exchange :
    (k : Keycloak) (cfg : KeycloakConfig) (token : String) (w : World)
    → is_empty cfg.issuer ≡ false
    → is_empty cfg.client_id ≡ false
    → refresh_access_token k cfg token w
      ≡ (read_token (k.exchange w.tick (token_request cfg token)), next w)
unfolding refresh_access_token
refresh-eq-exchange k cfg token w issuer client = rw (issuer, client)

-- The parts, as the environment sets them.
pub record IsConfigured (getenv : Environment) (cfg : Config) : Type 0 where
  pub timeout : ℕ
  pub retries : ℕ
  pub has_timeout :
      atoi (or_default (getenv "CONTRACT_SERVICE_TIMEOUT_MS") "2000") ≡ some (pos timeout)
  pub has_retries :
      atoi (or_default (getenv "CONTRACT_SERVICE_RETRY_COUNT") "2") ≡ some (pos retries)
  pub waits : 1 ≤ timeout
  pub client_timeout : (contracts cfg).timeout ≡ pos (timeout * millisecond)
  pub client_retries : (contracts cfg).retry_count ≡ retries
  pub asks :
      (k : Keycloak) (token : String) (w : World)
      → refresh_access_token k (keycloak_config cfg) token w
        ≡ (read_token (k.exchange w.tick (token_request (keycloak_config cfg) token)), next w)
  pub form :
      (token : String)
      → (token_request (keycloak_config cfg) token).form
        ≡ ("grant_type", "refresh_token")
          ∷ ("client_id", or_default (getenv "KEYCLOAK_CLIENT_ID") "sharetrip-api")
          ∷ ("refresh_token", token)
          ∷ ("client_secret", getenv "KEYCLOAK_CLIENT_SECRET")
          ∷ []

-- If `Load` succeeds, the contract client waits the milliseconds of the variable, at least one and
-- without overflow, and retries as often as the variable says; and a token's exchange never fails for
-- a missing setting: it always asks Keycloak, with the client's id and secret in the form.
pub load-IsConfigured :
    (getenv : Environment) {cfg : Config} → load getenv ≡ ok cfg → IsConfigured getenv cfg
unfolding loaded new_client token_request
load-IsConfigured getenv {cfg} h =
    let (port, timeout, retries, a, same) = load-Accepts getenv {cfg = cfg} h in
    let issuer : is_empty cfg.keycloak_issuer ≡ false =
      ap (λ (c : Config). is_empty c.keycloak_issuer) same ∙ a.required.issuer in
    let client : is_empty cfg.keycloak_client_id ≡ false =
      ap (λ (c : Config). is_empty c.keycloak_client_id) same
      ∙ or_default_filled (getenv "KEYCLOAK_CLIENT_ID") "sharetrip-api" refl in
    let secret = a.required.secret in
    record {
      timeout = timeout;
      retries = retries;
      has_timeout = a.has_timeout;
      has_retries = a.has_retries;
      waits = a.timeout_low;
      client_timeout = ap (λ (c : Config). (contracts c).timeout) same;
      client_retries = ap (λ (c : Config). (contracts c).retry_count) same;
      asks = λ k token w. refresh-eq-exchange k (keycloak_config cfg) token w issuer client;
      form = λ token.
          ap (λ (c : Config). (token_request (keycloak_config c) token).form) same ∙ rw secret refl;
    }
