-- ===== src/Api/RoundTrip.antt =====
-- `POST /trip/create`, then `GET /trip/:id`: what was created is what is read.
use share_trip.Base.{
  ℕ, true, false, ◌≡◌, refl, ap, inl, inr, ◌∙◌, Option, none, some, arith, ◌≤◌, Option-cases,
}
use share_trip.GoError.{GoError}
use share_trip.Result.{Result, ok, err}
use share_trip.Domain.{Uuid, Trip, draft}
use share_trip.Domain.Usecase.{draft_of}
use share_trip.World.{World, Tables}
use share_trip.Env.{Env}
use share_trip.Repository.Trips.{find_trip, is_storable}
use share_trip.Repository.Lookup.{find_trip-append}
use share_trip.Repository.Reliable.{IsReliable, get_trip_by_id-found_or_error}
use share_trip.Lifecycle.Changes.{IsCreated}
use share_trip.Lifecycle.Transition.{rank}
use share_trip.Service.Trips.{create_trip, get_trip_by_id}
use share_trip.Service.Validate.{CreateTripCommand, is_blank, validate_create_trip_command}
use share_trip.Service.Creating.{create_trip-eq-ok}
use share_trip.System.Reachable.{get_trip_by_id-tables}
use share_trip.Middleware.Keycloak.{KeycloakClaims}
use share_trip.Api.Handlers
use share_trip.Api.Handlers.{CreateTripBody, client_id_from_claims}
use share_trip.Api.Response.{
  Response, CreateTripResponse, GetTripByIdResponse, respond, created_trip, found_trip,
  new_create_trip_response, new_get_trip_by_id_response, write_fiber_service_error,
}
use share_trip.Api.Creating.{status_of, command, call-status, transaction-status}
use share_trip.Wiring.{server, trip_service}

-- google/uuid reads the text of an id as that id, and the text is not blank.
pub record ReadsIds (env : Env) : Type 0 where
  pub parses : (id : Uuid) → env.uuid_parse (env.uuid_text id) ≡ some id
  pub is_filled : (id : Uuid) → is_blank (env.uuid_text id) ≡ false

-- The conversion between the two responses, which have the same fields.
abbrev pub as_found : CreateTripResponse → GetTripByIdResponse
as_found answer = record {
  id = answer.id;
  driver_id = answer.driver_id;
  from_point = answer.from_point;
  to_point = answer.to_point;
  departure_time = answer.departure_time;
  available_seats = answer.available_seats;
  status = answer.status;
  created_at = answer.created_at;
  updated_at = answer.updated_at;
}

-- The answer to a creation: a draft of the client with the fields of the body, the departure time as
-- a column holds it.
pub record Echoes (env : Env) (client : Uuid) (body : CreateTripBody) (answer : CreateTripResponse)
    : Type 0 where
  pub by_client : answer.driver_id ≡ client
  pub same_from : answer.from_point ≡ body.from_point
  pub same_to : answer.to_point ≡ body.to_point
  pub same_departure : answer.departure_time ≡ env.timestamptz body.departure_time
  pub same_seats : answer.available_seats ≡ body.available_seats
  pub is_draft : answer.status ≡ draft
  pub not_updated : answer.updated_at ≡ answer.created_at

-- The same trip, read later: its id, its driver and its seats, and a status that has not gone back.
pub record IsLater (answer : CreateTripResponse) (row : GetTripByIdResponse) : Type 0 where
  pub same_id : row.id ≡ answer.id
  pub same_driver : row.driver_id ≡ answer.driver_id
  pub same_seats : row.available_seats ≡ answer.available_seats
  pub no_less : rank answer.status ≤ rank row.status

created_or_not : (r : Result Trip) → status_of r ≡ 201 → (trip : Trip) × (r ≡ ok trip)
unfolding write_fiber_service_error
created_or_not (ok trip) h = (trip, refl)
created_or_not (err e) h = absurd (ground arith)

module _ (env : Env) (ping : ℕ → Option GoError) where
  -- What `GET /trip/:id` answers for the text of an id.
  abbrev pub read : Uuid → World → Result Response × World
  read id = Handlers.get_trip_by_id env (server env ping) (env.uuid_text id)

  pub read-eq-found :
      (ids : ReadsIds env) (reliable : IsReliable env) (id : Uuid) (w : World) {trip : Trip}
      → find_trip id w.tables.trips ≡ some trip
      → (read id w).0 ≡ ok (respond 200 (found_trip (as_found (new_create_trip_response trip))))
  unfolding Handlers.get_trip_by_id get_trip_by_id new_get_trip_by_id_response
      new_create_trip_response
  read-eq-found ids reliable id w found =
      let a = ids.parses id in
      let b = ids.is_filled id in
      let c = get_trip_by_id-found_or_error env reliable w id in ground arith

  pub read-tables : (id : Uuid) (w : World) → (read id w).1.tables ≡ w.tables
  unfolding Handlers.get_trip_by_id
  read-tables id w = elim (Option-cases (env.uuid_parse (env.uuid_text id))) [
    | inl g ↦ ground arith
    | inr (found, g) ↦ let a = get_trip_by_id-tables env found w in ground arith
  ]

IsCreated-found :
    (trip : Trip) {t u : Tables} → IsCreated trip t u → find_trip trip.id u.trips ≡ some trip
IsCreated-found trip {t} c =
    let lookup = find_trip-append trip.id trip t.trips in
    let a = c.fresh in let b = c.after in ground arith

module _ (env : Env) (ids : ReadsIds env) (reliable : IsReliable env) (ping : ℕ → Option GoError)
    (locals : Option KeycloakClaims) {client : Uuid} (body : CreateTripBody) (w : World)
    (client_known : client_id_from_claims env locals ≡ ok client)
    (unused : (n : ℕ) → find_trip (env.gen_random_uuid n) w.tables.trips ≡ none)
    (valid : validate_create_trip_command
        (env.now w.tick)
        (command env reliable ping locals body w client_known)
      ≡ none)
    (storable : is_storable body.from_point body.to_point body.available_seats ≡ true) where
  abbrev wanted : CreateTripCommand
  wanted = command env reliable ping locals body w client_known

  abbrev posted : Result Response × World
  posted = Handlers.create_trip env (server env ping) locals (ok body) w

  abbrev service_call : Result Trip × World
  service_call = create_trip env (trip_service env) wanted w

  service_status : status_of service_call.0 ≡ 201
  service_status =
      call-status env reliable ping locals body w client_known valid
      ∙ transaction-status env reliable ping locals body w client_known valid unused
      ∙ rw storable

  posted-eq-created :
      {trip : Trip}
      → service_call.0 ≡ ok trip
      → (posted.0 ≡ ok (respond 201 (created_trip (new_create_trip_response trip))))
        × (posted.1.tables ≡ service_call.1.tables)
  unfolding Handlers.create_trip
  posted-eq-created h = (ground arith, ground arith)

  -- The creation's answer, and the row that is there afterwards.
  pub created_row :
      (trip : Trip) × (posted.0 ≡ ok (respond 201 (created_trip (new_create_trip_response trip))))
      × Echoes env client body (new_create_trip_response trip)
      × (find_trip trip.id posted.1.tables.trips ≡ some trip)
  unfolding new_create_trip_response draft_of
  created_row =
      let (trip, done) = created_or_not service_call.0 service_status in
      let (is_valid, created, now, id, is_new) =
        create_trip-eq-ok env wanted w {trip = trip} done in
      let (answer, tables) = posted-eq-created {trip = trip} done in
      let echoes : Echoes env client body (new_create_trip_response trip) = record {
        by_client = ap (λ (t : Trip). t.driver_id) is_new;
        same_from = ap (λ (t : Trip). t.from_point) is_new;
        same_to = ap (λ (t : Trip). t.to_point) is_new;
        same_departure = ap (λ (t : Trip). t.departure_time) is_new;
        same_seats = ap (λ (t : Trip). t.seats) is_new;
        is_draft = ap (λ (t : Trip). t.status) is_new;
        not_updated = ground arith;
      } in
      (trip, answer, echoes, rw tables (IsCreated-found trip created))
