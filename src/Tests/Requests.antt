-- ===== src/Tests/Requests.antt =====
-- The middleware and the contract client.
use share_trip.Base.{
  ℕ, String, true, false, ◌≡◌, refl, ◌↔◌, ◌⊎◌, inl, inr, Option, none, some, [], ◌∷◌,
}
use share_trip.GoError.{GoError, fiber_error}
use share_trip.Result.{Result, ok, err}
use share_trip.World.{World}
use share_trip.Middleware.Keycloak.{
  Keycloak, KeycloakConfig, KeycloakClaims, has_client_role, authenticate,
  parse_access_token_claims, refresh_access_token,
}
use share_trip.Api.Response.{Response}
use share_trip.Api.Routes.{Request, get_metrics, post_start, get_by_id, serve, final_status}
use share_trip.Api.Handlers.{Server}
use share_trip.Api.Guarded.{serve_unauthenticated}
use share_trip.Service.Trips.{CheckResult}
use share_trip.Wiring.{server}
use share_trip.Middleware.Tokens.{IsAccepted, authenticate-eq-ok}
use share_trip.Tests.Setup.{env, context, drafted, claims}

abbrev pub config : KeycloakConfig
config = record { issuer = "http://keycloak/"; client_id = "sharetrip-api"; client_secret = "s" }

abbrev roleless : KeycloakClaims
roleless = record claims { resource_access = [] }

-- A server that knows one refresh token.
abbrev pub keycloak : KeycloakClaims → Keycloak
keycloak found = record {
  exchange = λ n r. ok (record { status_code = 200; access_token = ok "h.p.s" });
  decode_base64 = λ s. ok s;
  decode_claims = λ s. ok found;
}

abbrev pub no_ping : ℕ → Option GoError
no_ping n = none

abbrev server_of : Server
server_of = server env no_ping

abbrev serve_with : KeycloakClaims → String → Request → Result Response × World
serve_with found token r = serve env (keycloak found) config server_of context token r drafted

serve_get_by_id : final_status (serve_with claims "t" (get_by_id "1")).0 ≡ 200
unfolding serve final_status authenticate share_trip.Base.Text.split
    share_trip.Middleware.Keycloak.require_client_role share_trip.Api.Handlers.get_trip_by_id
    share_trip.Base.Text.trim_space share_trip.Config.number share_trip.Service.Trips.get_trip_by_id
    share_trip.Repository.Trips.get_trip_by_id
serve_get_by_id = refl

unauthenticated :
    (authenticate (keycloak claims) config "" drafted).0
    ≡ err (fiber_error 401 "missing refresh token")
unfolding authenticate
unauthenticated = refl

serve_unauthenticated_example :
    (final_status (serve_with claims "" (post_start (ok 1))).0 ≡ 401)
    × ((serve_with claims "" (post_start (ok 1))).1.tables ≡ drafted.tables)
    × ((serve_with claims "" (post_start (ok 1))).1.topic ≡ [])
serve_unauthenticated_example =
    serve_unauthenticated env (keycloak claims) config server_of context "" (post_start (ok 1))
      drafted (fiber_error 401 "missing refresh token") tt unauthenticated

authenticated : (authenticate (keycloak roleless) config "t" drafted).0 ≡ ok roleless
unfolding authenticate share_trip.Base.Text.split
authenticated = refl

-- A token without the role.
serve_roleless : final_status (serve_with roleless "t" (get_by_id "1")).0 ≡ 403
unfolding final_status serve authenticate share_trip.Base.Text.split
    share_trip.Middleware.Keycloak.require_client_role
serve_roleless = refl

authenticate-eq-ok_example : IsAccepted (keycloak roleless) config "t" 0 roleless
authenticate-eq-ok_example = authenticate-eq-ok (keycloak roleless) config "t" drafted authenticated

serve_metrics : final_status (serve_with claims "" get_metrics).0 ≡ 200
unfolding final_status serve share_trip.Api.Handlers.metrics_handler
serve_metrics = refl
