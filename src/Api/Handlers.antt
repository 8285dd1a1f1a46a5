-- ===== src/Api/Handlers.antt =====
-- client_id.go, create_trip.go, get_trip_by_id.go, move_trip_draft_to_published.go, start_trip.go,
-- ready.go and metrics_handler.go. A handler returns the response that it has written, or an error for Fiber.
use share_trip.Base.{ℕ, String, Option, none, some, ◌==◌, if◌then◌else◌}
use share_trip.Base.Int.{ℤ}
use share_trip.GoError.{GoError, fiber_error, is_error, trip_already_published}
use share_trip.Result.{Result, ok, err}
use share_trip.Context.{Context}
use share_trip.Domain.{Uuid, nil_uuid, Time, Trip}
use share_trip.World.{World, Action, next}
use share_trip.Env.{Env}
use share_trip.Service.Validate.{CreateTripCommand, is_blank}
use share_trip.Service.Trips.{TripCommand}
use share_trip.Middleware.Keycloak.{KeycloakClaims, claims_from_context}
use share_trip.Api.Response.{
  Response, no_body, created_trip, found_trip, trip_id_response, metrics_text, respond,
  respond_error, new_create_trip_response, new_get_trip_by_id_response, write_fiber_service_error,
}

pub record TripService : Type 0 where
  pub create_trip : CreateTripCommand → Action Trip
  pub get_trip_by_id : Uuid → Action Trip
  pub publish_trip : Context → TripCommand → Action Uuid
  pub start_trip : Context → TripCommand → Action Uuid

-- `db` is the pool's `Ping`; the registry is the world's metrics.
pub record Server : Type 0 where
  pub trips : TripService
  pub db : ℕ → Option GoError

abbrev pub new_server : TripService → (ℕ → Option GoError) → Server
new_server trips db = record { trips = trips; db = db }

-- `CreateTripRequest` of the API.
pub record CreateTripBody : Type 0 where
  pub from_point : String
  pub to_point : String
  pub departure_time : Time
  pub available_seats : ℤ

unfoldable pub client_id_from_claims : Env → Option KeycloakClaims → Result Uuid
unfolding claims_from_context
client_id_from_claims env locals = elim (claims_from_context locals) [
  | err e ↦ err e
  | ok claims ↦ elim (env.uuid_parse claims.subject) [
    | none ↦ err (fiber_error 401 "invalid token subject")
    | some id ↦ if id == nil_uuid then err (fiber_error 401 "invalid token subject") else ok id
  ]
]

-- A service's result as a response.
abbrev answer :
    {A : Type 0}
    → (A → Response)
    → (GoError → Response)
    → Result A × World
    → Result Response × World
answer good bad (ok a, w) = (ok (good a), w)
answer good bad (err e, w) = (ok (bad e), w)

module _ (env : Env) (s : Server) (locals : Option KeycloakClaims) where
  -- `body` is what `BodyParser` makes of the request.
  unfoldable pub create_trip : Result CreateTripBody → Action Response
  create_trip body w = elim (client_id_from_claims env locals) [
    | err e ↦ (err e, w)
    | ok driver_id ↦ elim body [
      | err e ↦ (ok (respond_error 400 "VALIDATION_ERROR" "invalid request body"), w)
      | ok request ↦
          answer (λ trip. respond 201 (created_trip (new_create_trip_response trip)))
            write_fiber_service_error
            (s.trips.create_trip
              (record {
                driver_id = driver_id;
                from_point = request.from_point;
                to_point = request.to_point;
                departure_time = request.departure_time;
                seats = request.available_seats;
              })
              w)
    ]
  ]

  -- `PublishTrip`'s error for a trip that is published already is no error to the client.
  unfoldable pub publish_error : GoError → Response
  publish_error e =
      if is_error e trip_already_published then respond 204 no_body else write_fiber_service_error e

  -- `body` is the `tripId` of the body.
  unfoldable pub move_trip_draft_to_published : Context → Result String → Action Response
  unfolding publish_error
  move_trip_draft_to_published ctx body w = elim (client_id_from_claims env locals) [
    | err e ↦ (err e, w)
    | ok client_id ↦ elim body [
      | err e ↦ (ok (respond_error 400 "VALIDATION_ERROR" "invalid request body"), w)
      | ok text ↦
          if is_blank text
          then (ok (respond_error 400 "VALIDATION_ERROR" "tripId is required"), w)
          else elim (env.uuid_parse text) [
            | none ↦ (ok (respond_error 400 "VALIDATION_ERROR" "tripId must be a valid UUID"), w)
            | some trip_id ↦
                answer (λ id. respond 200 (trip_id_response (record { trip_id = id })))
                  publish_error
                  (s.trips.publish_trip ctx (record { trip_id = trip_id; client_id = client_id }) w)
          ]
    ]
  ]

  -- `body` is the UUID `tripId` of the body.
  unfoldable pub start_trip : Context → Result Uuid → Action Response
  start_trip ctx body w = elim (client_id_from_claims env locals) [
    | err e ↦ (err e, w)
    | ok client_id ↦ elim body [
      | err e ↦ (ok (respond_error 400 "VALIDATION_ERROR" "tripId must be a valid UUID"), w)
      | ok trip_id ↦
          answer (λ id. respond 200 (trip_id_response (record { trip_id = id })))
            write_fiber_service_error
            (s.trips.start_trip ctx (record { trip_id = trip_id; client_id = client_id }) w)
    ]
  ]

-- `param` is the path's `:id`.
unfoldable pub get_trip_by_id : Env → Server → String → Action Response
get_trip_by_id env s param w =
    if is_blank param
    then (ok (respond_error 404 "NOT_FOUND" "trip not found"), w)
    else elim (env.uuid_parse param) [
      | none ↦ (ok (respond_error 400 "VALIDATION_ERROR" "tripId must be a valid UUID"), w)
      | some id ↦
          answer (λ trip. respond 200 (found_trip (new_get_trip_by_id_response trip)))
            write_fiber_service_error (s.trips.get_trip_by_id id w)
    ]

-- `metricsHandler` hands over to the Prometheus library; the registry's values are the world's metrics.
unfoldable pub metrics_handler : Env → Action Response
metrics_handler env w =
    let shown = env.expose w.metrics in
    (ok (respond shown.status_code (metrics_text shown.text)), w)

unfoldable pub ready : Server → Action Response
ready s w = elim (s.db w.tick) [
  | some e ↦ (ok (respond_error 503 "SERVICE_UNAVAILABLE" "database unavailable"), next w)
  | none ↦ (ok (respond 200 no_body), next w)
]
