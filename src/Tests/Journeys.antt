-- ===== src/Tests/Journeys.antt =====
-- Requests over the HTTP API, one after the other.
use share_trip.Base.{ℕ, ◌≡◌, refl, ◌⊎◌, false, some, [], ◌∷◌}
use share_trip.Base.Int.{pos}
use share_trip.Result.{Result, ok}
use share_trip.Domain.{Uuid, Trip}
use share_trip.World.{World}
use share_trip.Service.Validate.{validate_create_trip_command}
use share_trip.System.{Reach, publish, batch}
use share_trip.Api.Handlers
use share_trip.Api.Handlers.{CreateTripBody}
use share_trip.Api.Response.{Response}
use share_trip.Api.Routes.{post_create}
use share_trip.App.{HttpRequest, HttpResponse, handle}
use share_trip.App.Authorized.{IsAuthorized, handle-IsAuthorized}
use share_trip.App.Serving.{here, tick, request as request_step, Serves-IsConsistent}
use share_trip.Lifecycle.Consistency.{IsConsistent}
use share_trip.Events.{producer, publish_batch}
use share_trip.Wiring.{server, outbox_queue}
use share_trip.Tests.Requests.{keycloak, config}
use share_trip.Tests.Trips.{env-IsInjective, empty, no_ping}
use share_trip.Tests.Setup.{env, context, claims}

abbrev body : CreateTripBody
body = record {
  from_point = "A";
  to_point = "B";
  departure_time = pos 900;
  available_seats = pos 3;
}

abbrev posted : Result Response × World
posted = Handlers.create_trip env (server env no_ping) (some claims) (ok body) empty

-- The creation, then a publication and a batch.
abbrev two_more : (w : World) × Reach env posted.1 w
two_more = (
  _,
  Reach.next (Reach.next Reach.here (publish context (record { trip_id = 502; client_id = 7 })))
      batch,
)

abbrev publishing : Uuid → World → Result Response × World
publishing id =
    Handlers.move_trip_draft_to_published env (server env no_ping) (some claims) context
      (ok (env.uuid_text id))

abbrev starting : Uuid → World → Result Response × World
starting id = Handlers.start_trip env (server env no_ping) (some claims) context (ok id)

abbrev request : HttpRequest
request = record {
  received = record {
    method = "POST";
    path = "/trip/create";
    fresh = "f";
    request_id_header = "r";
    correlation_id_header = "";
  };
  refresh_token = "t";
  route = post_create (ok body);
  route_path = "/trip/create";
  own_route = false;
}

abbrev requested : HttpResponse × World
requested = handle env (keycloak claims) config (server env no_ping) [] context request empty

requested_created : requested.0.status ≡ 201
unfolding handle share_trip.Middleware.Keycloak.authenticate share_trip.Base.Text.split
    share_trip.Middleware.Keycloak.require_client_role Handlers.create_trip
    Handlers.client_id_from_claims share_trip.Config.number share_trip.Service.Trips.create_trip
    validate_create_trip_command share_trip.Base.Text.trim_space share_trip.Service.Transaction.tx
    share_trip.Domain.Usecase.create_trip share_trip.Repository.Trips.create
requested_created = refl

handle-IsAuthorized_example :
    (requested.1.tables ≡ empty.tables)
    ⊎ IsAuthorized env no_ping
        (keycloak claims)
        config
        request
        requested.0.ids
        empty
        requested.1.tables
handle-IsAuthorized_example =
    handle-IsAuthorized env no_ping (keycloak claims) config [] context request empty

-- The request, then a batch.
Serves-IsConsistent_example :
    IsConsistent env (publish_batch env (outbox_queue env) (producer env) requested.1).1.tables
Serves-IsConsistent_example =
    Serves-IsConsistent env no_ping (keycloak claims) config [] env-IsInjective {v = empty} refl
      (tick (request_step here context request))
