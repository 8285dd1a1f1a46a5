-- ===== src/Domain/Usecase.antt =====
-- internal/domain/create_trip.go and publish_trip.go: the use cases, over any repositories.
use share_trip.Base.{String, ◌<>◌, not, none, ◌==◌, if◌then◌else◌}
use share_trip.Base.Int.{pos}
use share_trip.GoError.{sentinel, detailed, forbidden, conflict, trip_already_published}
use share_trip.Result.{Result, ok, err}
use share_trip.Context.{Context, correlation_id, request_id}
use share_trip.Domain.{
  Uuid, nil_uuid, Time, ◌is◌, draft, published, status_text, Trip, OutboxEvent, TripPublished,
  event_type_trip_published, CreateTripRequest, PublishTripRequest,
}
use share_trip.World.{Action, ◌>>=◌, ◌>>◌, pure, lift, annotate}
use share_trip.Env.{Env, current_time}

pub record TripRepository : Type 0 where
  pub create : Trip → Action Trip
  pub get_for_update_by_id : Uuid → Action Trip
  pub update : Trip → Action Trip

pub record OutboxRepository : Type 0 where
  pub create_outbox_event : OutboxEvent → Action (Unit {0})

pub record TripUsecase : Type 0 where
  pub trip_repo : TripRepository
  pub outbox_repo : OutboxRepository

-- The row that `CreateTrip` inserts; the fields that the request lacks have their zero value.
unfoldable pub draft_of : CreateTripRequest → Trip
draft_of req = record {
  id = nil_uuid;
  driver_id = req.driver_id;
  from_point = req.from_point;
  to_point = req.to_point;
  departure_time = req.departure_time;
  seats = req.seats;
  status = draft;
  created_at = pos 0;
  updated_at = pos 0;
}

unfoldable pub create_trip : TripUsecase → CreateTripRequest → Action Trip
unfolding draft_of
create_trip u req = annotate "tripRepo.Create" (u.trip_repo.create (draft_of req))

module _ (env : Env) where
  unfoldable pub new_event_id : Uuid → String → Uuid
  new_event_id trip_id event_type = env.uuid_new_sha1 trip_id event_type

  -- The three tests of `PublishTrip`, in their order.
  unfoldable pub may_publish : PublishTripRequest → Trip → Result (Unit {0})
  unfolding status_text
  may_publish req trip =
      if not (trip.driver_id == req.client_id)
      then err (
          detailed (sentinel forbidden) (
            "client "
            <> (env.uuid_text req.client_id
                <> (" is not driver of trip " <> env.uuid_text req.trip_id))))
      else if trip.status is published
      then err (detailed (sentinel trip_already_published) ("trip " <> env.uuid_text trip.id))
      else if not (trip.status is draft)
      then err (
          detailed (sentinel conflict)
            ("invalid trip status: expected draft, got " <> status_text trip.status))
      else ok tt

  unfoldable pub trip_published : Context → PublishTripRequest → Trip → Time → TripPublished
  unfolding new_event_id
  trip_published ctx req trip now = record {
    event_id = env.uuid_text (new_event_id trip.id event_type_trip_published);
    event_type = event_type_trip_published;
    correlation_id = correlation_id ctx;
    causation_id = request_id ctx;
    trace_parent = ctx.trace_parent;
    trip_id = env.uuid_text trip.id;
    driver_id = env.uuid_text trip.driver_id;
    company_id = env.uuid_text req.client_id;
    occurred_at = now;
  }

  -- The row of the outbox; the fields that the code does not set have their zero value.
  unfoldable pub outbox_event : Trip → String → OutboxEvent
  unfolding new_event_id
  outbox_event trip payload = record {
    id = new_event_id trip.id event_type_trip_published;
    aggregate_type = "trip";
    aggregate_id = trip.id;
    event_type = event_type_trip_published;
    payload = payload;
    status = "";
    attempts = 0;
    last_error = none;
    created_at = pos 0;
    sent_at = none;
  }

  -- `PublishTrip` once its tests have passed: the update, then the event.
  unfoldable pub publish_checked : TripUsecase → Context → PublishTripRequest → Trip → Action Uuid
  unfolding current_time
  publish_checked u ctx req trip = do
    updated ← annotate "tripRepo.Update" (u.trip_repo.update (record trip { status = published }))
    now ← current_time env
    payload ←
        annotate "marshal trip published payload"
          (lift (env.marshal_event (trip_published ctx req updated now)))
    annotate "outboxRepo.CreateOutboxEvent"
        (u.outbox_repo.create_outbox_event (outbox_event updated payload))
    pure updated.id

  unfoldable pub publish_trip : TripUsecase → Context → PublishTripRequest → Action Uuid
  publish_trip u ctx req = do
    trip ← annotate "tripRepo.GetForUpdateByID" (u.trip_repo.get_for_update_by_id req.trip_id)
    lift (may_publish req trip)
    publish_checked u ctx req trip
