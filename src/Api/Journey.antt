-- ===== src/Api/Journey.antt =====
-- A trip from its creation to its start, over the HTTP API.
use share_trip.Base.{ℕ, String, true, ◌≡◌, Option, none}
use share_trip.GoError.{GoError}
use share_trip.Result.{Result, ok}
use share_trip.Context.{Context}
use share_trip.Domain.{Uuid, TripPublished}
use share_trip.World.{World}
use share_trip.Env.{Env, CheckRequest}
use share_trip.Repository.Trips.{find_trip, is_storable}
use share_trip.Repository.Reliable.{IsReliable}
use share_trip.Contract.{outcome}
use share_trip.Service.Trips.{TripCommand, CheckResult}
use share_trip.Middleware.Keycloak.{KeycloakClaims}
use share_trip.Api.Handlers
use share_trip.Api.Handlers.{CreateTripBody, client_id_from_claims}
use share_trip.Service.Validate.{validate_create_trip_command}
use share_trip.Api.Response.{Response}
use share_trip.Api.Creating.{command as asked}
use share_trip.Api.RoundTrip.{ReadsIds}
use share_trip.Wiring.{server}

-- The contract service answers every check, and with its permission.
pub record IsPermitting (env : Env) : Type 0 where
  pub permission : CheckResult
  pub allowed : permission.allowed ≡ true
  pub answers : (n : ℕ) (request : CheckRequest) → outcome (env.post n request) ≡ ok permission

module _ (env : Env) (ids : ReadsIds env) (reliable : IsReliable env) (permits : IsPermitting env)
    (encodes : (d : TripPublished) → (text : String) × (env.marshal_event d ≡ ok text))
    (ping : ℕ → Option GoError) (locals : Option KeycloakClaims) {client : Uuid}
    (client_known : client_id_from_claims env locals ≡ ok client) (ctx : Context) where
  -- `POST /trip/publish` with the text of an id, and `POST /trip/start` with the id.
  abbrev publishing : Uuid → World → Result Response × World
  publishing id =
      Handlers.move_trip_draft_to_published env (server env ping) locals ctx (ok (env.uuid_text id))

  abbrev starting : Uuid → World → Result Response × World
  starting id = Handlers.start_trip env (server env ping) locals ctx (ok id)

  abbrev command : Uuid → TripCommand
  command id = record { trip_id = id; client_id = client }

  module _ (body : CreateTripBody) (w : World)
      (unused : (n : ℕ) → find_trip (env.gen_random_uuid n) w.tables.trips ≡ none)
      (valid : validate_create_trip_command
          (env.now w.tick)
          (asked env reliable ping locals body w client_known)
        ≡ none)
      (storable : is_storable body.from_point body.to_point body.available_seats ≡ true) where
    abbrev posted : Result Response × World
    posted = Handlers.create_trip env (server env ping) locals (ok body) w
