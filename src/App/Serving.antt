-- ===== src/App/Serving.antt =====
-- Runs of the whole process: any requests over HTTP and any batches of the publisher, in any order.
use share_trip.Base.{ℕ, String, ◌≡◌, inl, inr, Option}
use share_trip.GoError.{GoError}
use share_trip.Context.{Logger, Context}
use share_trip.Domain.{Uuid}
use share_trip.World.{World, Tables}
use share_trip.Env.{Env}
use share_trip.Lifecycle.Consistency.{IsConsistent, IsInjective}
use share_trip.Lifecycle.Transition.{
  Transition, unchanged, created, published_trip, started_trip, Transition-IsConsistent,
}
use share_trip.Events.{publish_batch}
use share_trip.System.{batch, empty_tables}
use share_trip.System.Reachable.{perform-Transition, empty-IsConsistent}
use share_trip.Middleware.Keycloak.{Keycloak, KeycloakConfig}
use share_trip.Api.Changing.{Changes}
use share_trip.Api.Routes.{
  Request, get_ready, get_metrics, unmatched, unmatched_trip, post_create, post_publish, post_start,
  get_by_id,
}
use share_trip.App.{HttpRequest, handle}
use share_trip.App.Authorized.{handle-IsAuthorized}
use share_trip.Wiring.{server, outbox_publisher}

-- What a route may change is a transition of the specification.
Changes-Transition :
    {env : Env} (from : String × String) (r : Request) (client : Uuid) {t u : Tables}
    → Changes env from r client t u
    → Transition env t u
Changes-Transition from get_ready client c = absurd c
Changes-Transition from get_metrics client c = absurd c
Changes-Transition from (unmatched code text) client c = absurd c
Changes-Transition from (unmatched_trip code text) client c = absurd c
Changes-Transition from (post_create body) client (trip, c, by_driver) = created trip c
Changes-Transition from (post_publish body) client (trip_id, c) = published_trip c
Changes-Transition from (post_start body) client (trip_id, c) = started_trip c
Changes-Transition from (get_by_id param) client c = absurd c

module _ (env : Env) (ping : ℕ → Option GoError) (k : Keycloak) (cfg : KeycloakConfig)
    (base : Logger) where
  -- The worlds that requests and batches lead to.
  pub data Serves (w : World) : World → Type 0 where
    here : Serves w w
    request :
        {v : World}
        → Serves w v
        → (ctx : Context) (req : HttpRequest)
        → Serves w (handle env k cfg (server env ping) base ctx req v).1
    tick :
        {v : World}
        → Serves w v
        → Serves w
            (publish_batch env (outbox_publisher env).outbox (outbox_publisher env).kafka v).1

  -- Every request, with its middleware, makes one transition of the specification, or none, whatever
  -- the services around it do.
  pub handle-Transition :
      (ctx : Context) (req : HttpRequest) (w : World)
      → Transition env w.tables (handle env k cfg (server env ping) base ctx req w).1.tables
  handle-Transition ctx req w = elim (handle-IsAuthorized env ping k cfg base ctx req w) [
    | inl same ↦ unchanged same
    | inr (claims, client, accepted, known, role, changes) ↦
        Changes-Transition _ req.route client changes
  ]

  -- If event ids tell trips apart, then in every world that requests over HTTP and batches lead to
  -- from empty tables, the history tells the status of every trip step by step, and a trip has its
  -- event in the outbox exactly when it is published or started.
  pub Serves-IsConsistent :
      (injective : IsInjective env) {v w : World}
      → v.tables ≡ empty_tables
      → Serves v w
      → IsConsistent env w.tables
  Serves-IsConsistent injective e here = rw e (empty-IsConsistent env)
  Serves-IsConsistent injective e (request {v = u} s ctx req) =
      Transition-IsConsistent injective (handle-Transition ctx req u)
        (Serves-IsConsistent injective e s)
  Serves-IsConsistent injective e (tick {v = u} s) =
      Transition-IsConsistent injective (perform-Transition env batch u)
        (Serves-IsConsistent injective e s)
