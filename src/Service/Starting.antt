-- ===== src/Service/Starting.antt =====
-- `StartTrip` against the lifecycle.
use share_trip.Base.{
  not, some, if◌then◌else◌, true, ◌≡◌, refl, ◌∙◌, ◌⊎◌, inl, inr, arith, Bool-cases, ◌==◌,
}
use share_trip.Result.{Result, ok, err, Result-cases}
use share_trip.GoError.{sentinel, forbidden}
use share_trip.Context.{Context, with_trip_id}
use share_trip.Domain.{Uuid, Trip, TripStatus-discrete, published, started, start}
use share_trip.World.{World, Action, ◌>>=◌, ◌>>◌, lift}
use share_trip.Env.{Env}
use share_trip.Repository.Trips
use share_trip.Repository.Trips.{find_trip}
use share_trip.Repository.Effects.{find_trip-id, get_for_update_by_id-eq-ok, update-eq-ok}
use share_trip.Lifecycle.Changes.{IsStarted}
use share_trip.Contract.{check_service}
use share_trip.Service.Trips.{TripCommand, CheckResult, start_block, start_trip}
use share_trip.Service.Transaction.{tx, begun}
use share_trip.Service.Atomic.{tx-eq-ok, tx_atomic}
use share_trip.Wiring.{trip_service}

start-eq-ok :
    (trip : Trip) {t : Trip}
    → start trip ≡ ok t
    → (trip.status ≡ published) × (t ≡ record trip { status = started })
unfolding start TripStatus-discrete
start-eq-ok trip h = ground arith

module _ (env : Env) (command : TripCommand) where
  -- The block behind the lock.
  abbrev pub start_locked : Trip → Action Trip
  start_locked trip =
      lift (if not (trip.driver_id == command.client_id) then err (sentinel forbidden) else ok tt)
      >> (lift (start trip) >>= Trips.update env)

  pub start_locked-IsStarted :
      (w w' : World) (old : Trip) {trip : Trip}
      → find_trip command.trip_id w.tables.trips ≡ some old
      → start_locked old w ≡ (ok trip, w')
      → IsStarted command.trip_id command.client_id w.tables w'.tables × (trip.id ≡ command.trip_id)
  unfolding Trips.record_change TripStatus-discrete
  start_locked-IsStarted w w' old {trip} found h =
      elim (Bool-cases (old.driver_id == command.client_id)) [
        | inr other ↦ absurd (ground arith)
        | inl driver ↦ elim (Result-cases (start old)) [
          | inr (x, f) ↦ absurd (ground arith)
          | inl (new, f) ↦
              let (is_published, started_now) = start-eq-ok old f in
              let (row, found', is_new, t) = update-eq-ok env w w' new {u = trip} (ground arith) in
              let same_id : old.id ≡ command.trip_id = find_trip-id _ _ found in
              let same_row : row ≡ old = ground arith in
              (
                record {
                  trip = old;
                  now = w.tx_time;
                  found = found;
                  is_published = is_published;
                  by_driver = ground arith;
                  after = ground arith;
                },
                ground arith,
              )
        ]
      ]

  block-IsStarted :
      (w w' : World) {trip : Trip}
      → start_block env (trip_service env) command w ≡ (ok trip, w')
      → IsStarted command.trip_id command.client_id w.tables w'.tables × (trip.id ≡ command.trip_id)
  unfolding start_block
  block-IsStarted w w' {trip} h =
      let (r₁, w₁) = Trips.get_for_update_by_id env command.trip_id w in
      elim (Result-cases r₁) [
        | inr (x, e) ↦ absurd (ground arith)
        | inl (old, e) ↦
            let (found, same) =
              get_for_update_by_id-eq-ok env w w₁ command.trip_id (λ i. (e i, w₁)) in
            let row : find_trip command.trip_id w₁.tables.trips ≡ some old = ground arith in
            let (done, id) = start_locked-IsStarted w₁ w' old {trip = trip} row (ground arith) in
            (rw same at done, id)
      ]

module _ (env : Env) (ctx : Context) (command : TripCommand) (w : World) where
  abbrev call : Result Uuid × World
  call = start_trip env (trip_service env) ctx command w

  -- The answer of the contract service, and the world after the check.
  abbrev pub start_checked : Result CheckResult × World
  start_checked =
      check_service env (with_trip_id ctx (env.uuid_text command.trip_id))
        (env.uuid_text command.client_id) "trip_start" w

  pub start_checked-tables : start_checked.1.tables ≡ w.tables
  unfolding check_service
  start_checked-tables = refl

  abbrev transaction : Result Trip × World
  transaction = tx env (start_block env (trip_service env) command) start_checked.1

  call_tables : (call.1.tables ≡ start_checked.1.tables) ⊎ (call.1.tables ≡ transaction.1.tables)
  unfolding start_trip
  call_tables = ground arith

  call-eq-ok :
      {id : Uuid}
      → call.0 ≡ ok id
      → (permission : CheckResult) × (trip : Trip) × (start_checked.0 ≡ ok permission)
        × (permission.allowed ≡ true)
        × (transaction.0 ≡ ok trip)
        × (id ≡ trip.id)
        × (call.1.tables ≡ transaction.1.tables)
  unfolding start_trip
  call-eq-ok {id} h = elim (Result-cases start_checked.0) [
    | inr (x, e) ↦ absurd (ground arith)
    | inl (permission, e) ↦ elim (Result-cases transaction.0) [
      | inr (x, f) ↦ absurd (ground arith)
      | inl (trip, f) ↦ (permission, trip, e, ground arith, f, ground arith, ground arith)
    ]
  ]

  -- After a start, whatever it returns, the tables are untouched, or a published trip of the client
  -- has been started.
  pub start_trip_atomic :
      (call.1.tables ≡ w.tables)
      ⊎ IsStarted command.trip_id command.client_id w.tables call.1.tables
  start_trip_atomic = elim call_tables [
    | inl e ↦ inl (e ∙ start_checked-tables)
    | inr e ↦ elim (tx_atomic env (start_block env (trip_service env) command) start_checked.1) [
      | inl t ↦ inl (e ∙ t ∙ start_checked-tables)
      | inr (trip, w₁, h, t, p) ↦
          inr (rw (e, t) (rw start_checked-tables at (block-IsStarted env command _ w₁ h).0))
    ]
  ]

  -- A start that succeeds had the contract service's permission, returns the id of the command, and
  -- has started the client's published trip.
  pub start_trip-eq-ok :
      {id : Uuid}
      → call.0 ≡ ok id
      → (permission : CheckResult) × (start_checked.0 ≡ ok permission)
        × (permission.allowed ≡ true)
        × (id ≡ command.trip_id)
        × IsStarted command.trip_id command.client_id w.tables call.1.tables
  start_trip-eq-ok {id} h =
      let (permission, trip, answer, allowed, done, is_id, e) = call-eq-ok h in
      let block = start_block env (trip_service env) command in
      let (w₁, h₁, t) =
        tx-eq-ok env block start_checked.1 transaction.1 (λ i. (done i, transaction.1)) in
      let (changed, same_id) = block-IsStarted env command (begun env start_checked.1) w₁ h₁ in
      (permission, answer, allowed, is_id ∙ same_id, rw (e, t) (rw start_checked-tables at changed))
