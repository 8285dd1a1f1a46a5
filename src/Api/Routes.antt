-- ===== src/Api/Routes.antt =====
-- register_routes.go: each route with the middleware in front of its handler, and what Fiber's
-- error handler makes of an error.
use share_trip.Base.{ℕ, String, none, some}
use share_trip.GoError.{as_fiber_error, fiber_error}
use share_trip.Result.{Result, ok, err}
use share_trip.Context.{Context}
use share_trip.Domain.{Uuid}
use share_trip.World.{Action, ◌>>=◌, ◌>>◌, lift, raise}
use share_trip.Env.{Env}
use share_trip.Middleware.Keycloak.{Keycloak, KeycloakConfig, authenticate, require_client_role}
use share_trip.Api.Response.{Response}
use share_trip.Api.Handlers
use share_trip.Api.Handlers.{Server, CreateTripBody}

-- A request to a route, with what Fiber has read of it for the handler. The last two reach none: Fiber
-- ends them with an error of its own, 404 or 405, below `/trip` after the middleware of the group.
pub data Request : Type 0 where
  get_ready get_metrics : Request
  post_create : Result CreateTripBody → Request
  post_publish : Result String → Request
  post_start : Result Uuid → Request
  get_by_id : String → Request
  unmatched unmatched_trip : ℕ → String → Request

module _ (env : Env) (k : Keycloak) (cfg : KeycloakConfig) (s : Server) where
  -- The middleware of the group `/trip`, the role where the route asks for one, the handler.
  unfoldable pub serve : Context → (refresh_token : String) → Request → Action Response
  serve ctx token get_ready = Handlers.ready s
  serve ctx token get_metrics = Handlers.metrics_handler env
  serve ctx token (unmatched code text) = raise (fiber_error code text)
  serve ctx token (unmatched_trip code text) = do
    claims ← authenticate k cfg token
    raise (fiber_error code text)
  serve ctx token (post_create body) = do
    claims ← authenticate k cfg token
    lift (require_client_role cfg.client_id "client" (some claims))
    Handlers.create_trip env s (some claims) body
  serve ctx token (post_publish body) = do
    claims ← authenticate k cfg token
    Handlers.move_trip_draft_to_published env s (some claims) ctx body
  serve ctx token (post_start body) = do
    claims ← authenticate k cfg token
    Handlers.start_trip env s (some claims) ctx body
  serve ctx token (get_by_id param) = do
    claims ← authenticate k cfg token
    lift (require_client_role cfg.client_id "client" (some claims))
    Handlers.get_trip_by_id env s param

-- The status that the client sees: Fiber answers an error with its code, or with 500.
unfoldable pub final_status : Result Response → ℕ
final_status (ok response) = response.status_code
final_status (err e) = elim (as_fiber_error e) [ some code ↦ code | none ↦ 500 ]
