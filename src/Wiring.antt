-- ===== src/Wiring.antt =====
-- cmd/sharetrip/main.go: the service over the PostgreSQL repositories and the contract client, and
-- the publisher over the outbox and the producer.
use share_trip.Base.{ℕ, Option}
use share_trip.GoError.{GoError}
use share_trip.Api.Handlers.{Server, new_server}
use share_trip.Service.Trips as Service
use share_trip.Domain.Usecase.{TripRepository, OutboxRepository}
use share_trip.Env.{Env}
use share_trip.Repository.Trips
use share_trip.Repository.Outbox
use share_trip.Service.Trips.{TripStore, TripService, new_trip_service}
use share_trip.Contract.{client}
use share_trip.Events.{OutboxQueue, OutboxPublisher, new_outbox_publisher, producer}

module _ (env : Env) where
  -- `NewPostgresTripRepository` and `NewPostgresOutboxRepository`: the environment is the pool, and the
  -- metrics are those of the world.
  abbrev pub trip_repository : TripRepository
  trip_repository = record {
    create = Trips.create env;
    get_for_update_by_id = Trips.get_for_update_by_id env;
    update = Trips.update env;
  }

  abbrev pub trip_store : TripStore
  trip_store = record { trips = trip_repository; get_trip_by_id = Trips.get_trip_by_id env }

  abbrev pub outbox_repository : OutboxRepository
  outbox_repository = record { create_outbox_event = Outbox.create_outbox_event env }

  abbrev pub outbox_queue : OutboxQueue
  outbox_queue = record {
    count_pending = Outbox.count_pending env;
    lock_pending = Outbox.lock_pending env;
    mark_sent = Outbox.mark_sent env;
    mark_failed = Outbox.mark_failed env;
  }

  abbrev pub outbox_publisher : OutboxPublisher
  outbox_publisher = new_outbox_publisher outbox_queue (producer env)

  abbrev pub trip_service : TripService
  trip_service = new_trip_service trip_store outbox_repository (client env)

  -- The handlers' service, and the pool that `GET /ready` pings.
  abbrev pub server : (ping : ℕ → Option GoError) → Server
  server ping =
      new_server
        (record {
          create_trip = Service.create_trip env trip_service;
          get_trip_by_id = Service.get_trip_by_id env trip_service;
          publish_trip = Service.publish_trip env trip_service;
          start_trip = Service.start_trip env trip_service;
        })
        ping
