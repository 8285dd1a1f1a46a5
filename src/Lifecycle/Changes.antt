-- ===== src/Lifecycle/Changes.antt =====
-- The changes, one type each.
use share_trip.Base.{String, ◌≡◌, none, some, [], ◌∷◌, ◌++◌}
use share_trip.Domain.{
  Uuid, Time, TripStatus, draft, published, started, Trip, TripPublished, OutboxEvent,
  event_type_trip_published,
}
use share_trip.Result.{ok}
use share_trip.World.{Tables}
use share_trip.Env.{Env}
use share_trip.Repository.Trips.{find_trip, replace_trip}
use share_trip.Repository.Outbox.{put_event, status_pending}
use share_trip.Domain.Usecase.{new_event_id}

-- The trip with a new status, and nothing else of it but the time of the update.
abbrev pub moved : Trip → TripStatus → Time → Trip
moved trip to now = record trip { status = to; updated_at = now }

-- The tables once a trip has changed its status: one row replaced, one history row on top.
abbrev pub move_trip : Trip → TripStatus → Time → Tables → Tables
move_trip trip to now t = record t {
  trips = replace_trip (moved trip to now) t.trips;
  history =
      record { trip_id = trip.id; from_status = some trip.status; to_status = to } ∷ t.history;
}

-- A draft has been added under an id that no trip had.
pub record IsCreated (trip : Trip) (t u : Tables) : Type 0 where
  pub fresh : find_trip trip.id t.trips ≡ none
  pub is_draft : trip.status ≡ draft
  pub after : u ≡ record t {
    trips = t.trips ++ (trip ∷ []);
    history = record { trip_id = trip.id; from_status = none; to_status = draft } ∷ t.history;
  }

-- A draft of the client has become published, and its event waits in the outbox, with the
-- message encoded in it; the message carries the request's own id and its correlation id, `from`.
pub record IsPublished (env : Env) (from : String × String) (trip_id client_id : Uuid)
    (t u : Tables) : Type 0 where
  pub trip : Trip
  pub now : Time
  pub message : TripPublished
  pub event : OutboxEvent
  pub found : find_trip trip_id t.trips ≡ some trip
  pub is_draft : trip.status ≡ draft
  pub by_driver : trip.driver_id ≡ client_id
  pub event_id : event.id ≡ new_event_id env trip_id event_type_trip_published
  pub is_pending : event.status ≡ status_pending
  pub encoded : env.marshal_event message ≡ ok event.payload
  pub about_trip : message.trip_id ≡ env.uuid_text trip_id
  pub same_id : message.event_id ≡ env.uuid_text event.id
  pub correlated : message.correlation_id ≡ from.1
  pub caused : message.causation_id ≡ from.0
  pub about_driver : message.driver_id ≡ env.uuid_text client_id
  pub after : u ≡ record (move_trip trip published now t) { outbox = put_event event t.outbox }

-- A published trip of the client has been started.
pub record IsStarted (trip_id client_id : Uuid) (t u : Tables) : Type 0 where
  pub trip : Trip
  pub now : Time
  pub found : find_trip trip_id t.trips ≡ some trip
  pub is_published : trip.status ≡ published
  pub by_driver : trip.driver_id ≡ client_id
  pub after : u ≡ move_trip trip started now t
