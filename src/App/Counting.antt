-- ===== src/App/Counting.antt =====
-- The HTTP metrics of a request.
use share_trip.Base.{ℕ, String, Bool, true, false, ◌≡◌, refl, Option, [], ◌∷◌, arith, inl, inr}
use share_trip.Base.Text.{itoa}
use share_trip.GoError.{GoError}
use share_trip.Result.{Result-cases}
use share_trip.Context.{Logger, Context}
use share_trip.World.{World}
use share_trip.Env.{Env}
use share_trip.Metrics.{Labels}
use share_trip.Middleware.Keycloak.{Keycloak, KeycloakConfig}
use share_trip.Middleware.Correlation.{correlation, metric_status, metric_path, observe_http}
use share_trip.Api.Routes.{final_status}
use share_trip.Wiring.{server}
use share_trip.App.{HttpRequest, HttpResponse, handle}
use share_trip.App.Frame.{served, serve-http}

-- The path that the metrics report: `unmatched` for a request that no route but the middleware's own
-- has taken, and for a route without a path.
abbrev pub expected_path : String → Bool → String
expected_path path true = "unmatched"
expected_path String.[] false = "unmatched"
expected_path (String.◌∷◌ c s) false = String.◌∷◌ c s

metric_path-eq-expected :
    (path : String) (own : Bool) → metric_path path own ≡ expected_path path own
unfolding metric_path
metric_path-eq-expected String.[] true = refl
metric_path-eq-expected String.[] false = refl
metric_path-eq-expected (String.◌∷◌ c s) true = refl
metric_path-eq-expected (String.◌∷◌ c s) false = refl

module _ (env : Env) (ping : ℕ → Option GoError) (k : Keycloak) (cfg : KeycloakConfig)
    (base : Logger) (ctx : Context) (req : HttpRequest) (w : World) where
  abbrev handled : HttpResponse × World
  handled = handle env k cfg (server env ping) base ctx req w

  abbrev labels : Labels
  labels =
      req.received.method ∷ expected_path req.route_path req.own_route ∷ itoa handled.0.status ∷ []

  -- Every request adds one increment and one observation to the HTTP metrics, under its method, the
  -- path of the route that Fiber reports, or `unmatched` if that is the middleware's own or has no
  -- path, and the status that the client sees, errors of middleware and handlers included.
  pub handle_counted :
      (handled.1.metrics.http_request_total ≡ labels ∷ w.metrics.http_request_total)
      × (handled.1.metrics.http_request_duration ≡ labels ∷ w.metrics.http_request_duration)
  unfolding handle correlation metric_status observe_http final_status
  handle_counted =
      let path = metric_path-eq-expected req.route_path req.own_route in
      let inner = (correlation base req.received ctx).1 in
      let same = serve-http env ping k cfg inner req.refresh_token req.route w in
      elim (Result-cases (served env ping k cfg inner req.refresh_token req.route w).0) [
        | inl (response, e) ↦ (ground arith, ground arith)
        | inr (x, e) ↦ (ground arith, ground arith)
      ]
