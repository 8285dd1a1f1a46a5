-- ===== src/App.antt =====
-- cmd/sharetrip/main.go: the chain of `app.Use` in front of the routes, without the tracing library's
-- middleware: correlation, HTTP metrics, routes, and Fiber's error handler behind them.
pub mod Operations
pub mod Frame
pub mod Counting
pub mod Authorized
pub mod Serving
use share_trip.Base.{ℕ, String, Bool, Option, none, some}
use share_trip.GoError.{GoError}
use share_trip.Result.{Result, ok, err}
use share_trip.Context.{Logger, Context}
use share_trip.World.{World}
use share_trip.Env.{Env}
use share_trip.Middleware.Keycloak.{Keycloak, KeycloakConfig}
use share_trip.Middleware.Correlation.{
  Ids, Received, correlation, metric_status, metric_path, observe_http,
}
use share_trip.Api.Response.{Response}
use share_trip.Api.Handlers.{Server}
use share_trip.Api.Routes.{Request, serve, final_status}

-- A request with what Fiber reports of it once the handlers have run: the path of the route that was
-- reached, and whether that is the middleware's own.
pub record HttpRequest : Type 0 where
  pub received : Received
  pub refresh_token : String
  pub route : Request
  pub route_path : String
  pub own_route : Bool

pub record HttpResponse : Type 0 where
  pub ids : Ids
  pub status : ℕ
  pub answer : Result Response

-- The status of a response that is written; 200 is what Fiber starts with.
abbrev written_status : Result Response → ℕ
written_status (ok response) = response.status_code
written_status (err e) = 200

abbrev error_of : {A : Type 0} → Result A → Option GoError
error_of (ok a) = none
error_of (err e) = some e

unfoldable pub handle :
    Env
    → Keycloak
    → KeycloakConfig
    → Server
    → Logger
    → Context
    → HttpRequest
    → World
    → HttpResponse × World
unfolding correlation metric_status metric_path observe_http serve final_status
handle env k cfg s base ctx req w =
    let (ids, inner) = correlation base req.received ctx in
    let (answer, w') = serve env k cfg s inner req.refresh_token req.route w in
    (
      record { ids = ids; status = final_status answer; answer = answer },
      observe_http req.received.method (metric_path req.route_path req.own_route)
          (metric_status (written_status answer) (error_of answer)) w',
    )
