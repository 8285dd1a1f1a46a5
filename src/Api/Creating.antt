-- ===== src/Api/Creating.antt =====
-- `POST /trip/create` and `GET /trip/:id` end to end: the status that a client sees.
use share_trip.Base.{
  ℕ, Bool, true, false, ◌≡◌, refl, ap, inl, inr, ◌∙◌, Option, none, some, arith, Option-cases,
  Bool-cases,
}
use share_trip.GoError.{GoError, Sentinel-discrete}
use share_trip.Result.{Result, ok, err}
use share_trip.Domain.{Uuid, Trip}
use share_trip.Domain.Usecase
use share_trip.Domain.Usecase.{draft_of}
use share_trip.World.{World, Action, next}
use share_trip.Env.{Env}
use share_trip.Repository.Trips
use share_trip.Repository.Trips.{find_trip, fits_int4, has_nul, is_storable, check_seats}
use share_trip.Repository.Reliable.{IsReliable}
use share_trip.Service.Trips.{create_trip}
use share_trip.Service.Validate.{CreateTripCommand, validate_create_trip_command}
use share_trip.Service.Transaction.{tx, begun}
use share_trip.Service.Creating.{request, validate-eq-none}
use share_trip.Service.Publishing.Decision.{wrapped, tx-wrapped}
use share_trip.Middleware.Keycloak.{KeycloakClaims}
use share_trip.Api.Handlers
use share_trip.Api.Handlers.{CreateTripBody, client_id_from_claims}
use share_trip.Api.Response.{write_fiber_service_error}
use share_trip.Api.Routes.{final_status}
use share_trip.Wiring.{server, trip_service}

-- The status of the response: 400 for a command that validation refuses, and 500 for one that the
-- columns cannot hold.
abbrev pub expected_create : Option GoError → Bool → ℕ
expected_create (some e) storable = 400
expected_create none true = 201
expected_create none false = 500

-- The status of a service's answer.
abbrev pub status_of : Result Trip → ℕ
status_of (ok trip) = 201
status_of (err e) = (write_fiber_service_error e).status_code

module _ (env : Env) (reliable : IsReliable env) where
  abbrev pub block : CreateTripCommand → Action Trip
  block command = Usecase.create_trip (trip_service env).trip_usecase (request env command)

  block-status :
      (command : CreateTripCommand) (w : World)
      → check_seats command.seats ≡ true
      → find_trip (env.gen_random_uuid w.tick) w.tables.trips ≡ none
      → status_of (block command w).0
        ≡ expected_create none (is_storable command.from_point command.to_point command.seats)
  unfolding Usecase.create_trip draft_of Trips.create Trips.insert_trip is_storable
      write_fiber_service_error
  block-status command w seats fresh =
      let a = reliable.runs w.tick in
      let b = reliable.runs (next w).tick in
      elim (Bool-cases (fits_int4 command.seats)) [
        | inl fits ↦ elim (Bool-cases (has_nul command.from_point)) [
          | inl bad ↦ ground arith
          | inr good ↦ elim (Bool-cases (has_nul command.to_point)) [
            | inl bad ↦ ground arith
            | inr good' ↦ ground arith
          ]
        ]
        | inr large ↦ ground arith
      ]

  wrapped-status : (r : Result Trip) → status_of (wrapped r) ≡ status_of r
  unfolding write_fiber_service_error
  wrapped-status (ok a) = refl
  wrapped-status (err e) = ground arith

  module _ (ping : ℕ → Option GoError) (locals : Option KeycloakClaims) {client : Uuid}
      (body : CreateTripBody) (w : World)
      (client_known : client_id_from_claims env locals ≡ ok client) where
    abbrev pub command : CreateTripCommand
    command = record {
      driver_id = client;
      from_point = body.from_point;
      to_point = body.to_point;
      departure_time = body.departure_time;
      seats = body.available_seats;
    }

    abbrev pub call : Result Trip
    call = (create_trip env (trip_service env) command w).0

    abbrev pub transaction : Result Trip
    transaction = (tx env (block command) (next w)).0

    pub handler-status :
        final_status (Handlers.create_trip env (server env ping) locals (ok body) w).0
        ≡ status_of call
    unfolding final_status Handlers.create_trip
    handler-status = ground arith

    pub call-status :
        validate_create_trip_command (env.now w.tick) command ≡ none
        → status_of call ≡ status_of transaction
    unfolding create_trip write_fiber_service_error
    call-status valid = ground arith

    pub transaction-status :
        validate_create_trip_command (env.now w.tick) command ≡ none
        → ((n : ℕ) → find_trip (env.gen_random_uuid n) w.tables.trips ≡ none)
        → status_of transaction
          ≡ expected_create none (is_storable body.from_point body.to_point body.available_seats)
    unfolding check_seats
    transaction-status valid fresh =
        let v = ((validate-eq-none (env.now w.tick) command).0 valid).has_seats in
        let w₁ = begun env (next w) in
        ap status_of (tx-wrapped env reliable (block command) (next w))
        ∙ wrapped-status (block command w₁).0
        ∙ block-status command w₁ (ground arith) (fresh w₁.tick)

    refused-status :
        {e : GoError}
        → validate_create_trip_command (env.now w.tick) command ≡ some e
        → status_of call ≡ 400
    unfolding create_trip validate_create_trip_command write_fiber_service_error Sentinel-discrete
    refused-status bad = ground arith

    pub create_status :
        ((n : ℕ) → find_trip (env.gen_random_uuid n) w.tables.trips ≡ none)
        → final_status (Handlers.create_trip env (server env ping) locals (ok body) w).0
          ≡ expected_create
              (validate_create_trip_command (env.now w.tick) command)
              (is_storable body.from_point body.to_point body.available_seats)
    create_status fresh =
        handler-status
        ∙ elim (Option-cases (validate_create_trip_command (env.now w.tick) command)) [
          | inl valid ↦ rw valid (call-status valid ∙ transaction-status valid fresh)
          | inr (e, bad) ↦ rw bad (refused-status {e = e} bad)
        ]
