-- ===== src/Service/Creating.antt =====
-- `CreateTrip` against the lifecycle, and what validation lets through.
use share_trip.Base.{
  true, false, ◌≡◌, ◌≢◌, ap, ◌∙◌, ◌↔◌, ◌⊎◌, inl, inr, none, some, arith, Option-cases,
}
use share_trip.Base.Int.{pos, ◌<ℤ◌}
use share_trip.GoError.{GoError, Sentinel-discrete, is_error, validation}
use share_trip.Result.{Result, ok, err}
use share_trip.Domain.{Uuid, nil_uuid, Time, Trip, CreateTripRequest}
use share_trip.Domain.Usecase
use share_trip.Domain.Usecase.{draft_of}
use share_trip.World.{World, Action, next}
use share_trip.Env.{Env}
use share_trip.Repository.Effects.{create-eq-ok}
use share_trip.Lifecycle.Changes.{IsCreated}
use share_trip.Service.Trips.{create_trip}
use share_trip.Service.Validate.{CreateTripCommand, validate_create_trip_command, is_blank}
use share_trip.Service.Transaction.{tx, begun}
use share_trip.Service.Atomic.{tx-eq-ok, tx_atomic}
use share_trip.Wiring.{trip_service}

-- What a command must satisfy at an instant.
pub record IsValid (now : Time) (command : CreateTripCommand) : Type 0 where
  pub has_driver : command.driver_id ≢ nil_uuid
  pub has_from_point : is_blank command.from_point ≡ false
  pub has_to_point : is_blank command.to_point ≡ false
  pub is_future : now <ℤ command.departure_time
  pub has_seats : pos 0 <ℤ command.seats

-- Validation finds no error exactly in a command with a driver, two places that are not blank, a
-- departure after the given instant and at least one seat.
pub validate-eq-none :
    (now : Time) (command : CreateTripCommand)
    → (validate_create_trip_command now command ≡ none) ↔ IsValid now command
unfolding validate_create_trip_command
validate-eq-none now command = (λ h. ground arith, λ v. ground arith)

validate-is_error :
    (now : Time) (command : CreateTripCommand) {e : GoError}
    → validate_create_trip_command now command ≡ some e
    → is_error e validation ≡ true
unfolding validate_create_trip_command Sentinel-discrete
validate-is_error now command h = ground arith

module _ (env : Env) (command : CreateTripCommand) where
  abbrev pub request : CreateTripRequest
  request = record {
    driver_id = command.driver_id;
    from_point = command.from_point;
    to_point = command.to_point;
    departure_time = command.departure_time;
    seats = command.seats;
  }

  abbrev block : Action Trip
  block = Usecase.create_trip (trip_service env).trip_usecase request

  block-IsCreated :
      (w w' : World) {trip : Trip}
      → block w ≡ (ok trip, w')
      → IsCreated trip w.tables w'.tables
        × (trip ≡ record (draft_of request) {
          id = env.gen_random_uuid w.tick;
          departure_time = env.timestamptz command.departure_time;
          created_at = w.tx_time;
          updated_at = w.tx_time;
        })
  unfolding Usecase.create_trip
  block-IsCreated w w' {trip} h =
      let (is_new, fresh, t) = create-eq-ok env w w' (draft_of request) {u = trip} (ground arith) in
      (record { fresh = fresh; is_draft = ground arith; after = ground arith }, is_new)

module _ (env : Env) (command : CreateTripCommand) (w : World) where
  abbrev call : Result Trip × World
  call = create_trip env (trip_service env) command w

  abbrev transaction : Result Trip × World
  transaction = tx env (block env command) (next w)

  call_tables : (call.1.tables ≡ w.tables) ⊎ (call.1.tables ≡ transaction.1.tables)
  unfolding create_trip
  call_tables = ground arith

  call-eq-ok :
      {trip : Trip}
      → call.0 ≡ ok trip
      → (validate_create_trip_command (env.now w.tick) command ≡ none)
        × (transaction.0 ≡ ok trip)
        × (call.1.tables ≡ transaction.1.tables)
  unfolding create_trip
  call-eq-ok {trip} h = (ground arith, ground arith, ground arith)

  -- After a creation, whatever it returns, the tables are untouched, or one draft of the command's
  -- driver has been added under an id that no trip had, with its history row.
  pub create_trip_atomic :
      (call.1.tables ≡ w.tables)
      ⊎ ((trip : Trip) × IsCreated trip w.tables call.1.tables
          × (trip.driver_id ≡ command.driver_id))
  unfolding draft_of
  create_trip_atomic = elim call_tables [
    | inl e ↦ inl e
    | inr e ↦ elim (tx_atomic env (block env command) (next w)) [
      | inl t ↦ inl (e ∙ t)
      | inr (trip, w₁, h, t, p) ↦
          let (created, is_new) = block-IsCreated env command (begun env (next w)) w₁ h in
          inr (trip, rw (e, t) created, ap (λ (new : Trip). new.driver_id) is_new)
    ]
  ]

  -- A creation that succeeds had a valid command, and returns the draft that it has added: the
  -- command's fields under a new id, the time as the column holds it.
  pub create_trip-eq-ok :
      {trip : Trip}
      → call.0 ≡ ok trip
      → IsValid (env.now w.tick) command
        × IsCreated trip w.tables call.1.tables
        × (now : Time) × (id : Uuid) × (trip ≡ record (draft_of (request env command)) {
          id = id;
          departure_time = env.timestamptz command.departure_time;
          created_at = now;
          updated_at = now;
        })
  create_trip-eq-ok {trip} h =
      let (valid, done, e) = call-eq-ok h in
      let w₀ = begun env (next w) in
      let (w₁, h₁, t) =
        tx-eq-ok env (block env command) (next w) transaction.1 (λ i. (done i, transaction.1)) in
      let (created, is_new) = block-IsCreated env command w₀ w₁ h₁ in
      (
        (validate-eq-none _ command).0 valid,
        rw (e, t) created,
        w₀.tx_time,
        env.gen_random_uuid w₀.tick,
        is_new,
      )

  -- A command that is not valid is refused with a validation error, and changes nothing.
  pub create_trip_refused :
      ¬ IsValid (env.now w.tick) command
      → (e : GoError) × (call.0 ≡ err e)
        × (is_error e validation ≡ true)
        × (call.1.tables ≡ w.tables)
  unfolding create_trip
  create_trip_refused bad =
      elim (Option-cases (validate_create_trip_command (env.now w.tick) command)) [
        | inl valid ↦ absurd (bad ((validate-eq-none _ command).0 valid))
        | inr (e, h) ↦ (e, ground arith, validate-is_error _ command h, ground arith)
      ]
