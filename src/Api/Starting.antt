-- ===== src/Api/Starting.antt =====
-- `POST /trip/start` end to end: the status that a client sees.
use share_trip.Base.{
  ℕ, true, ◌≡◌, refl, sym, ap, inl, inr, ◌∙◌, Option, none, some, arith, ◌==◌, if◌then◌else◌,
  Option-cases,
}
use share_trip.GoError.{GoError, Sentinel-discrete}
use share_trip.Result.{Result, ok, err}
use share_trip.Context.{Context}
use share_trip.Domain.{Uuid, Trip, TripStatus-discrete, published, started, start}
use share_trip.World.{World, Tables}
use share_trip.Env.{Env}
use share_trip.Repository.Trips
use share_trip.Repository.Trips.{find_trip}
use share_trip.Repository.Effects.{find_trip-id}
use share_trip.Repository.Reliable.{
  IsReliable, HasSeats, get_for_update_by_id-found_or_error, update_reliable,
}
use share_trip.Service.Trips.{TripCommand, CheckResult, start_block, start_trip}
use share_trip.Service.Transaction.{tx, begun}
use share_trip.Lifecycle.Changes.{IsStarted}
use share_trip.Service.Starting.{start_checked, start_checked-tables, start_trip-eq-ok}
use share_trip.Service.Publishing.Decision.{wrapped, tx-wrapped}
use share_trip.Middleware.Keycloak.{KeycloakClaims}
use share_trip.Api.Handlers
use share_trip.Api.Handlers.{client_id_from_claims}
use share_trip.Api.Response.{Response, write_fiber_service_error}
use share_trip.Api.Routes.{final_status}
use share_trip.Wiring.{server, trip_service}

-- The status of the response, by the row that the id finds and the client who asks.
abbrev pub expected_start : Option Trip → Uuid → ℕ
expected_start none client = 404
expected_start (some trip) client =
    if trip.driver_id == client then elim trip.status [ published ↦ 200 | _ ↦ 409 ] else 403

-- The status of a service's answer.
abbrev status_of : {A : Type 0} → Result A → ℕ
status_of (ok a) = 200
status_of (err e) = (write_fiber_service_error e).status_code

wrapped-status : {A : Type 0} (r : Result A) → status_of (wrapped r) ≡ status_of r
unfolding write_fiber_service_error
wrapped-status (ok a) = refl
wrapped-status (err e) = ground arith

-- An error of the service never becomes status 200.
ok_of_status : {A : Type 0} (r : Result A) → status_of r ≡ 200 → (a : A) × (r ≡ ok a)
unfolding write_fiber_service_error
ok_of_status (ok a) h = (a, refl)
ok_of_status (err e) h = absurd (ground arith)

module _ (env : Env) (ping : ℕ → Option GoError) (locals : Option KeycloakClaims) (ctx : Context)
    {client : Uuid} (trip_id : Uuid) (w : World)
    (client_known : client_id_from_claims env locals ≡ ok client) where
  abbrev command : TripCommand
  command = record { trip_id = trip_id; client_id = client }

  abbrev call : Result Uuid × World
  call = start_trip env (trip_service env) ctx command w

  abbrev handled : Result Response × World
  handled = Handlers.start_trip env (server env ping) locals ctx (ok trip_id) w

  handler-status : final_status handled.0 ≡ status_of call.0
  unfolding final_status Handlers.start_trip
  handler-status = ground arith

  handler_tables : handled.1.tables ≡ call.1.tables
  unfolding Handlers.start_trip
  handler_tables = ground arith

  -- To a known client, status 200 is given to the driver of a published trip only, with the contract
  -- service's permission, and once the trip is started; nothing is assumed of the services.
  pub start_ok :
      final_status handled.0 ≡ 200
      → (permission : CheckResult) × ((start_checked env ctx command w).0 ≡ ok permission)
        × (permission.allowed ≡ true)
        × IsStarted trip_id client w.tables handled.1.tables
  start_ok h =
      let (id, done) = ok_of_status call.0 (sym handler-status ∙ h) in
      let (permission, answered, allowed, same, started_now) =
        start_trip-eq-ok env ctx command w {id = id} done in
      (permission, answered, allowed, rw handler_tables started_now)

module _ (env : Env) (reliable : IsReliable env) where
  block-status :
      (command : TripCommand) (w : World)
      → ((trip : Trip) → find_trip command.trip_id w.tables.trips ≡ some trip → HasSeats trip)
      → status_of (start_block env (trip_service env) command w).0
        ≡ expected_start (find_trip command.trip_id w.tables.trips) command.client_id
  unfolding start_block start write_fiber_service_error Sentinel-discrete TripStatus-discrete
  block-status command w seats =
      let (e, t) = get_for_update_by_id-found_or_error env reliable w command.trip_id in
      let w₁ = (Trips.get_for_update_by_id env command.trip_id w).1 in
      elim (Option-cases (find_trip command.trip_id w.tables.trips)) [
        | inl gone ↦ ground arith
        | inr (trip, found) ↦
            let same : trip.id ≡ command.trip_id = find_trip-id command.trip_id _ found in
            let row = seats trip found in
            let u =
              update_reliable env reliable w₁ (record trip { status = started }) {old = trip}
                (ground arith) (record { fits = row.fits; positive = row.positive }) in
            ground arith
      ]

  module _ (ping : ℕ → Option GoError) (locals : Option KeycloakClaims) (ctx : Context)
      {client : Uuid} (trip_id : Uuid) (w : World)
      (client_known : client_id_from_claims env locals ≡ ok client) where
    abbrev asked : TripCommand
    asked = record { trip_id = trip_id; client_id = client }

    call-status :
        {permission : CheckResult}
        → (start_checked env ctx asked w).0 ≡ ok permission
        → permission.allowed ≡ true
        → status_of (start_trip env (trip_service env) ctx asked w).0
          ≡ status_of
              (tx env
                (start_block env (trip_service env) asked)
                (start_checked env ctx asked w).1).0
    unfolding start_trip
    call-status answered allowed = ground arith

    -- For a known client, where the database answers, the row meets its constraints and the contract
    -- service gives its permission, the status is that of the row and the client: 200 for a published
    -- trip of the client, 409 in any other status, 403 for a trip of another driver, 404 for no trip.
    pub start_status :
        (permission : CheckResult)
        → (start_checked env ctx asked w).0 ≡ ok permission
        → permission.allowed ≡ true
        → ((trip : Trip) → find_trip trip_id w.tables.trips ≡ some trip → HasSeats trip)
        → final_status (Handlers.start_trip env (server env ping) locals ctx (ok trip_id) w).0
          ≡ expected_start (find_trip trip_id w.tables.trips) client
    start_status permission answered allowed seats =
        let w₁ = (start_checked env ctx asked w).1 in
        let same = start_checked-tables env ctx asked w in
        let block = start_block env (trip_service env) asked in
        handler-status env ping locals ctx trip_id w client_known
        ∙ call-status {permission = permission} answered allowed
        ∙ ap status_of (tx-wrapped env reliable block w₁)
        ∙ wrapped-status (block (begun env w₁)).0
        ∙ block-status asked (begun env w₁) (rw same seats)
        ∙ ap (λ (t : Tables). expected_start (find_trip trip_id t.trips) client) same
