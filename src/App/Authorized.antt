-- ===== src/App/Authorized.antt =====
-- A request through the whole chain: who may change what.
use share_trip.Base.{ℕ, ◌≡◌, ◌⊎◌, Option, some}
use share_trip.GoError.{GoError}
use share_trip.Result.{ok}
use share_trip.Context.{Logger, Context}
use share_trip.Domain.{Uuid}
use share_trip.World.{World, Tables}
use share_trip.Env.{Env}
use share_trip.Middleware.Keycloak.{Keycloak, KeycloakConfig, KeycloakClaims, authenticate}
use share_trip.Middleware.Correlation.{Ids, correlation}
use share_trip.Api.Handlers.{client_id_from_claims}
use share_trip.Api.Authorized.{HasRole, serve-IsAuthorized}
use share_trip.Api.Changing.{Changes}
use share_trip.App.{HttpRequest, handle}
use share_trip.Wiring.{server}

module _ (env : Env) (ping : ℕ → Option GoError) (k : Keycloak) (cfg : KeycloakConfig) where
  -- The request's token was accepted, its claims name a client and have the role that the route asks
  -- for, and the route has made its change for this client, under the ids of the response's headers.
  abbrev pub IsAuthorized : HttpRequest → Ids → World → Tables → Type 0
  IsAuthorized req ids w u =
      (claims : KeycloakClaims) × (client : Uuid) × ((authenticate k cfg req.refresh_token w).0
        ≡ ok claims)
      × (client_id_from_claims env (some claims) ≡ ok client)
      × HasRole cfg claims req.route
      × Changes env (ids.request_id, ids.correlation_id) req.route client w.tables u

  -- After any request, whatever the services around do, the tables are untouched, or Keycloak has
  -- accepted the token, the claims name a client and have the role that the route asks for, and the
  -- change is the route's own, for that client: a draft of the client added by the creating route, a
  -- draft of the client published by the publishing route with the ids of the response's headers in
  -- the event's message, a published trip of the client started by the starting route.
  pub handle-IsAuthorized :
      (base : Logger) (ctx : Context) (req : HttpRequest) (w : World)
      → let (response, w') = handle env k cfg (server env ping) base ctx req w in
        (w'.tables ≡ w.tables) ⊎ IsAuthorized req response.ids w w'.tables
  unfolding handle
  handle-IsAuthorized base ctx req w =
      let inner = (correlation base req.received ctx).1 in
      serve-IsAuthorized env ping k cfg inner req.refresh_token req.route w
