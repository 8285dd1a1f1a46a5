-- ===== src/Service/Trips.antt =====
-- trip.go, new_trip_service.go, create_trip.go, get_trip_by_id.go, publish_trip.go, start_trip.go
-- and publish_trip_result.go.
use share_trip.Base.{String, Bool, true, false, not, none, some, [], ◌∷◌, ◌==◌, if◌then◌else◌}
use share_trip.GoError.{
  GoError, sentinel, annotated, is_error, trip_not_found, forbidden, conflict,
  trip_already_published,
}
use share_trip.Result.{Result, ok, err}
use share_trip.Context.{Context, with_trip_id}
use share_trip.Metrics.{
  result_success, result_validation_error, result_not_found, result_forbidden, result_conflict,
  result_already_published, result_internal_error,
}
use share_trip.Domain.{Uuid, Trip, start}
use share_trip.Domain.Usecase
use share_trip.Domain.Usecase.{TripRepository, OutboxRepository, TripUsecase}
use share_trip.World.{World, Action, ◌>>=◌, ◌>>◌, lift, set_metrics, next}
use share_trip.Env.{Env}
use share_trip.Service.Transaction.{tx}
use share_trip.Service.Validate.{CreateTripCommand, validate_create_trip_command}

pub record CheckResult : Type 0 where
  pub allowed : Bool
  pub reason : String

pub record ContractChecker : Type 0 where
  pub check_service : Context → String → String → Action CheckResult

-- `service.TripRepository`: the domain's interface with one method more.
pub record TripStore : Type 0 where
  pub trips : TripRepository
  pub get_trip_by_id : Uuid → Action Trip

-- `startTripTx` is always `tx`, and the metrics are those of the world.
pub record TripService : Type 0 where
  pub contracts : ContractChecker
  pub repo : TripStore
  pub trip_usecase : TripUsecase

abbrev pub new_trip_service : TripStore → OutboxRepository → ContractChecker → TripService
new_trip_service repo outbox_repo contracts = record {
  contracts = contracts;
  repo = repo;
  trip_usecase = record { trip_repo = repo.trips; outbox_repo = outbox_repo };
}

-- `PublishTripCommand` and `StartTripCommand`
pub record TripCommand : Type 0 where
  pub trip_id : Uuid
  pub client_id : Uuid

unfoldable pub publish_trip_result : GoError → String
publish_trip_result e =
    if is_error e trip_not_found
    then result_not_found
    else if is_error e forbidden
    then result_forbidden
    else if is_error e conflict
    then result_conflict
    else if is_error e trip_already_published
    then result_already_published
    else result_internal_error

-- The deferred functions of `CreateTrip` and `PublishTrip`.
unfoldable pub observe_create : String → World → World
observe_create result w = set_metrics w (record w.metrics {
  trip_create_total = (result ∷ []) ∷ w.metrics.trip_create_total;
  trip_create_duration = (result ∷ []) ∷ w.metrics.trip_create_duration;
})

unfoldable pub observe_publish : String → World → World
observe_publish result w = set_metrics w (record w.metrics {
  trip_publish_total = (result ∷ []) ∷ w.metrics.trip_publish_total;
  trip_publish_duration = (result ∷ []) ∷ w.metrics.trip_publish_duration;
})

module _ (env : Env) (s : TripService) where
  end_create : Result Trip × World → Result Trip × World
  end_create (ok trip, w) = (ok trip, observe_create result_success w)
  end_create (err e, w) =
      (err (annotated "create trip transaction" e), observe_create result_internal_error w)

  unfoldable pub create_trip : CreateTripCommand → Action Trip
  unfolding observe_create end_create
  create_trip command w = elim (validate_create_trip_command (env.now w.tick) command) [
    | some e ↦ (err e, observe_create result_validation_error (next w))
    | none ↦ end_create (
        tx env
          (Usecase.create_trip s.trip_usecase (record {
            driver_id = command.driver_id;
            from_point = command.from_point;
            to_point = command.to_point;
            departure_time = command.departure_time;
            seats = command.seats;
          }))
          (next w))
  ]

  unfoldable pub get_trip_by_id : Uuid → Action Trip
  get_trip_by_id id = s.repo.get_trip_by_id id

  end_publish : Result Uuid × World → Result Uuid × World
  end_publish (ok id, w) = (ok id, observe_publish result_success w)
  end_publish (err e, w) =
      (err (annotated "publish trip transaction" e), observe_publish (publish_trip_result e) w)

  -- What `PublishTrip` does with the answer of the contract service.
  after_check : Context → TripCommand → Result CheckResult × World → Result Uuid × World
  unfolding observe_publish end_publish
  after_check ctx command (err e, w) = (err e, observe_publish (publish_trip_result e) w)
  after_check ctx command (ok permission, w) = elim permission.allowed [
    | false ↦ (err (sentinel forbidden), observe_publish result_forbidden w)
    | true ↦ end_publish (
        tx env
          (Usecase.publish_trip env s.trip_usecase ctx
            (record { trip_id = command.trip_id; client_id = command.client_id }))
          w)
  ]

  unfoldable pub publish_trip : Context → TripCommand → Action Uuid
  unfolding after_check
  publish_trip ctx command w =
      let ctx' = with_trip_id ctx (env.uuid_text command.trip_id) in
      after_check ctx' command
        (s.contracts.check_service ctx' (env.uuid_text command.client_id) "trip_creation" w)

  -- The block that `StartTrip` runs in a transaction.
  unfoldable pub start_block : TripCommand → Action Trip
  start_block command = do
    trip ← s.repo.trips.get_for_update_by_id command.trip_id
    lift (if not (trip.driver_id == command.client_id) then err (sentinel forbidden) else ok tt)
    trip ← lift (start trip)
    s.repo.trips.update trip

  unfoldable pub start_trip : Context → TripCommand → Action Uuid
  unfolding start_block
  start_trip ctx command = do
    let ctx' = with_trip_id ctx (env.uuid_text command.trip_id)
    result ← s.contracts.check_service ctx' (env.uuid_text command.client_id) "trip_start"
    lift (if not result.allowed then err (sentinel forbidden) else ok tt)
    updated ← tx env (start_block command)
    lift (ok updated.id)
