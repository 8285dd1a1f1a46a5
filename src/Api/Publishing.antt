-- ===== src/Api/Publishing.antt =====
-- `POST /trip/publish` end to end: the status that a client sees.
use share_trip.Base.{
  ℕ, String, true, false, ◌≡◌, ◌≢◌, refl, sym, ap, inl, inr, ◌∙◌, Option, none, some, arith, ◌==◌,
  if◌then◌else◌,
}
use share_trip.GoError.{GoError, Sentinel-discrete}
use share_trip.Result.{Result, ok, err, Result-cases}
use share_trip.Context.{Context, causes, with_trip_id}
use share_trip.Domain.{Uuid, Trip, TripPublished, TripStatus-discrete, draft, published}
use share_trip.Domain.Usecase.{may_publish}
use share_trip.World.{World}
use share_trip.Env.{Env, Posted}
use share_trip.Repository.Trips.{find_trip}
use share_trip.Repository.Reliable.{IsReliable, HasSeats}
use share_trip.Lifecycle.Changes.{IsPublished}
use share_trip.Service.Validate.{is_blank}
use share_trip.Service.Trips.{
  TripCommand, CheckResult, publish_trip, publish_trip_result, observe_publish,
}
use share_trip.Service.Publishing.Outcome.{checked, checked-tables, publish_trip_success}
use share_trip.Service.Publishing.Decision.{reply, publish_trip-eq-reply}
use share_trip.Middleware.Keycloak.{KeycloakClaims}
use share_trip.Api.Handlers.{client_id_from_claims, publish_error, move_trip_draft_to_published}
use share_trip.Api.Response.{Response, respond, trip_id_response, write_fiber_service_error}
use share_trip.Api.Routes.{final_status}
use share_trip.Contract.{check_request, check_service, outcome}
use share_trip.Contract.Answers.{failure_status, outcome-failure_status}
use share_trip.Wiring.{server, trip_service}

-- The status of the response, by the row that the id finds and the client who asks.
abbrev pub expected_status : Option Trip → Uuid → ℕ
expected_status none client = 404
expected_status (some trip) client =
    if trip.driver_id == client
    then elim trip.status [ draft ↦ 200 | published ↦ 204 | _ ↦ 409 ]
    else 403

module _ (env : Env) (ping : ℕ → Option GoError) (locals : Option KeycloakClaims)
    (ctx : Context) where
  abbrev handle : Result String → World → Result Response × World
  handle = move_trip_draft_to_published env (server env ping) locals ctx

  -- The response to the service's answer.
  abbrev response : Result Uuid → Response
  response (ok id) = respond 200 (trip_id_response (record { trip_id = id }))
  response (err e) = publish_error env (server env ping) locals e

  status-reply :
      (command : TripCommand) (o : Option Trip)
      → (response (reply env command o)).status_code ≡ expected_status o command.client_id
  unfolding publish_error write_fiber_service_error may_publish TripStatus-discrete
      Sentinel-discrete
  status-reply command none = refl
  status-reply command (some trip) = ground arith

  publish_error-ne-200 : (e : GoError) → (response (err e)).status_code ≢ 200
  unfolding publish_error write_fiber_service_error
  publish_error-ne-200 e = ground arith

  module _ {text : String} {client trip_id : Uuid} (w : World)
      (client_known : client_id_from_claims env locals ≡ ok client)
      (not_blank : is_blank text ≡ false) (parsed : env.uuid_parse text ≡ some trip_id) where
    abbrev command : TripCommand
    command = record { trip_id = trip_id; client_id = client }

    handle-eq-response :
        (handle (ok text) w).0 ≡ ok (response (publish_trip env (trip_service env) ctx command w).0)
    unfolding move_trip_draft_to_published
    handle-eq-response = ground arith

    handle_tables :
        (handle (ok text) w).1.tables ≡ (publish_trip env (trip_service env) ctx command w).1.tables
    unfolding move_trip_draft_to_published
    handle_tables = ground arith

    -- For a known client and a valid trip id, where the database answers, the event encodes, the row
    -- meets its constraints and the contract service gives its permission, the status is that of the
    -- row and the client: 200 for a draft of the client, 204 if the trip is published, 409
    -- in any other status, 403 for a trip of another driver, 404 for no trip.
    pub publish_status :
        (reliable : IsReliable env)
        (encodes : (d : TripPublished) → (encoded : String) × (env.marshal_event d ≡ ok encoded))
        (permission : CheckResult)
        → (checked env ctx command w).0 ≡ ok permission
        → permission.allowed ≡ true
        → ((trip : Trip) → find_trip trip_id w.tables.trips ≡ some trip → HasSeats trip)
        → final_status (handle (ok text) w).0
          ≡ expected_status (find_trip trip_id w.tables.trips) client
    unfolding final_status
    publish_status reliable encodes permission answered allowed seats =
        let e = publish_trip-eq-reply env reliable encodes ctx command w answered allowed seats in
        ap final_status handle-eq-response
        ∙ ap (λ (r : Result Uuid). (response r).status_code) e
        ∙ status-reply command (find_trip trip_id w.tables.trips)

    -- To a known client and for a valid trip id, status 200 is given to the driver of a draft only,
    -- with the contract service's permission, and once the trip is published and its event in the
    -- outbox; nothing is assumed of the services.
    pub publish_ok :
        final_status (handle (ok text) w).0 ≡ 200
        → (permission : CheckResult) × ((checked env ctx command w).0 ≡ ok permission)
          × (permission.allowed ≡ true)
          × IsPublished env (causes ctx) trip_id client w.tables (handle (ok text) w).1.tables
    unfolding final_status
    publish_ok h =
        let call = publish_trip env (trip_service env) ctx command w in
        elim (Result-cases call.0) [
          | inl (id, e) ↦
              let (permission, answered, allowed, same, done) =
                publish_trip_success env ctx command w e in
              (permission, answered, allowed, rw handle_tables done)
          | inr (x, e) ↦ absurd (
              publish_error-ne-200 x (
                ap (λ (r : Result Uuid). (response r).status_code) (sym e)
                ∙ ap final_status (sym handle-eq-response)
                ∙ h))
        ]

    -- The answer of the contract service, or none.
    abbrev posted : Posted
    posted = env.post w.tick (
        check_request (with_trip_id ctx (env.uuid_text trip_id)) (env.uuid_text client)
          "trip_creation")

    checked-eq-outcome : (checked env ctx command w).0 ≡ outcome posted
    unfolding check_service
    checked-eq-outcome = refl

    call_refused :
        {e : GoError}
        → (checked env ctx command w).0 ≡ err e
        → publish_trip env (trip_service env) ctx command w
          ≡ (err e, observe_publish (publish_trip_result e) (checked env ctx command w).1)
    unfolding publish_trip
    call_refused h = ground arith

    -- For a known client and a valid trip id, without a result of the contract service no table
    -- changes, and the status is 503 if no answer came, or one that says overloaded or failing, and
    -- 502 for any other answer.
    pub publish_unchecked :
        (e : GoError)
        → outcome posted ≡ err e
        → (final_status (handle (ok text) w).0 ≡ failure_status posted)
          × ((handle (ok text) w).1.tables ≡ w.tables)
    unfolding final_status publish_error observe_publish
    publish_unchecked e h =
        let refused = call_refused {e = e} (checked-eq-outcome ∙ h) in
        let (status, other) = outcome-failure_status posted {e = e} h in
        let a = handle-eq-response in
        let b = handle_tables in
        let c = checked-tables env ctx command w in (ground arith, ground arith)
