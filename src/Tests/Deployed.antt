-- ===== src/Tests/Deployed.antt =====
-- A trip from its creation to its message: two requests, then a publisher.
use share_trip.Base.{select, ℕ, ◌≡◌, refl, ◌⊎◌, true, some, List, [], ◌∷◌, at, arith}
use mathlib.Core.List.Memᴰ
use share_trip.Result.{Result, ok}
use share_trip.Domain.{Uuid, Trip, OutboxEvent, published, event_type_trip_published}
use share_trip.Domain.Usecase.{new_event_id}
use share_trip.World.{World}
use share_trip.Repository.Trips
use share_trip.Repository.Trips.{find_trip}
use share_trip.Repository.Outbox
use share_trip.Repository.Outbox.{is_pending}
use share_trip.Lifecycle.Consistency.{IsInjective}
use share_trip.System.{create, perform}
use share_trip.Concurrent.{
  idle, publishing, publish_locked, lock_to_publish, commit_publish, other_call,
}
use share_trip.Events.{producer, publish_event}
use share_trip.Events.Publishers.{Mark, mark_of, apply_marks, resting, sending, lock, turn, commit}
use share_trip.Wiring.{outbox_queue}
use share_trip.Cluster.{Cluster, Step, Run, here, later, request, delivery, fresh}
use share_trip.Service.Trips.{TripCommand}
use share_trip.Tests.Json.{json_env, json_env-JsonRoundTrip}
use share_trip.Tests.Setup.{context, event}
use share_trip.Tests.Trips.{wanted, new_trip, empty}

pub json_env-IsInjective : IsInjective json_env
unfolding new_event_id
json_env-IsInjective a b h = omega arith

abbrev made : World
made = perform json_env (create wanted) empty

abbrev publishing_502 : TripCommand
publishing_502 = record { trip_id = 502; client_id = 7 }

abbrev read_row : Result Trip × World
read_row = Trips.get_for_update_by_id json_env 502 made

abbrev pub publication : Result Uuid × World
publication = publish_locked json_env context publishing_502 new_trip made

reads : read_row ≡ (ok new_trip, read_row.1)
unfolding Trips.get_for_update_by_id share_trip.Service.Trips.create_trip
    share_trip.Service.Validate.validate_create_trip_command share_trip.Base.Text.trim_space
    share_trip.Service.Transaction.tx share_trip.Domain.Usecase.create_trip Trips.create
reads = refl

commits : publication ≡ (ok 502, publication.1)
unfolding share_trip.Domain.Usecase.may_publish share_trip.Domain.TripStatus-discrete
    share_trip.Domain.Usecase.publish_checked Trips.update share_trip.Service.Trips.create_trip
    share_trip.Service.Validate.validate_create_trip_command share_trip.Base.Text.trim_space
    share_trip.Service.Transaction.tx share_trip.Domain.Usecase.create_trip Trips.create
    Outbox.create_outbox_event
commits = refl

abbrev after_creation : Cluster
after_creation = record fresh { tables = made.tables }

abbrev pub after_lock : Cluster
after_lock = record after_creation {
  session = at (λ i. idle) 0 (publishing context publishing_502 new_trip);
}

abbrev pub after_publication : Cluster
after_publication = record after_lock {
  tables = publication.1.tables;
  session = at after_lock.session 0 idle;
}

pub to_lock : Run json_env fresh after_lock
to_lock =
    later
      (later here (
        request (record { tables = made.tables; session = λ i. idle })
          (other_call (create wanted) empty tt refl) tt))
      (request (record { tables = made.tables; session = after_lock.session })
        (lock_to_publish 0 context publishing_502 new_trip made read_row.1 refl
          (λ j h. absurd (ground arith)) refl reads)
        tt)

-- The step that publishes the trip.
pub publishing_step : Step json_env after_lock after_publication
publishing_step =
    request (record { tables = publication.1.tables; session = after_publication.session })
      (commit_publish 0 context publishing_502 new_trip 502 made publication.1 refl refl commits) tt

pub to_publication : Run json_env fresh after_publication
to_publication = later to_lock publishing_step

abbrev first_event : List OutboxEvent → OutboxEvent
first_event [] = event 0 "" 0
first_event (e ∷ es) = e

abbrev event_502 : OutboxEvent
event_502 = first_event after_publication.tables.outbox

abbrev batch : List OutboxEvent
batch = event_502 ∷ []

locks :
    Outbox.lock_pending json_env publication.1
    ≡ (ok batch, (Outbox.lock_pending json_env publication.1).1)
unfolding Outbox.lock_pending share_trip.Domain.Usecase.may_publish
    share_trip.Domain.TripStatus-discrete share_trip.Domain.Usecase.publish_checked Trips.update
    share_trip.Service.Trips.create_trip share_trip.Service.Validate.validate_create_trip_command
    share_trip.Base.Text.trim_space share_trip.Service.Transaction.tx
    share_trip.Domain.Usecase.create_trip Trips.create Outbox.create_outbox_event Outbox.put_event
    Outbox.pending_row
locks = refl

abbrev delivering : Result (Unit {0}) × World
delivering =
    publish_event json_env (outbox_queue json_env) (producer json_env) event_502 publication.1

delivers : delivering ≡ (ok tt, delivering.1)
unfolding publish_event share_trip.Domain.Usecase.may_publish share_trip.Domain.TripStatus-discrete
    share_trip.Domain.Usecase.publish_checked Trips.update share_trip.Service.Trips.create_trip
    share_trip.Service.Validate.validate_create_trip_command share_trip.Base.Text.trim_space
    share_trip.Service.Transaction.tx share_trip.Domain.Usecase.create_trip Trips.create
    Outbox.create_outbox_event Outbox.put_event share_trip.Tests.Json.or_error
    share_trip.Tests.Json.decode share_trip.Tests.Json.read Outbox.pending_row
    share_trip.Tests.Json.read_number share_trip.Tests.Json.read_time share_trip.Tests.Json.encode
    share_trip.Tests.Json.write share_trip.Tests.Json.write_time share_trip.Tests.Json.write_number
    share_trip.Events.produce Outbox.mark_sent share_trip.Domain.Usecase.outbox_event
    share_trip.Domain.Usecase.trip_published share_trip.Base.Text.itoa
delivers = refl

abbrev after_batch_lock : Cluster
after_batch_lock = record after_publication {
  publisher = at (λ i. resting) 0 (sending batch batch []);
}

abbrev mark : Mark
mark = mark_of json_env event_502 publication.1

abbrev after_turn : Cluster
after_turn = record after_batch_lock {
  topic = delivering.1.topic;
  publisher = at after_batch_lock.publisher 0 (sending batch [] (mark ∷ []));
}

abbrev pub delivered : Cluster
delivered = record after_turn {
  tables = record after_publication.tables {
    outbox = apply_marks (mark ∷ []) after_publication.tables.outbox;
  };
  publisher = at after_turn.publisher 0 resting;
}

seen : after_publication.tables.outbox ≡ select (λ e. true) after_publication.tables.outbox
unfolding Outbox.lock_pending share_trip.Domain.Usecase.may_publish
    share_trip.Domain.TripStatus-discrete share_trip.Domain.Usecase.publish_checked Trips.update
    share_trip.Service.Trips.create_trip share_trip.Service.Validate.validate_create_trip_command
    share_trip.Base.Text.trim_space share_trip.Service.Transaction.tx
    share_trip.Domain.Usecase.create_trip Trips.create Outbox.create_outbox_event Outbox.put_event
    Outbox.pending_row
seen = refl

unmarked : publication.1.tables.outbox ≡ apply_marks [] after_publication.tables.outbox
unfolding apply_marks
unmarked = refl

no_messages : publication.1.topic ≡ []
unfolding Outbox.lock_pending share_trip.Domain.Usecase.may_publish
    share_trip.Domain.TripStatus-discrete share_trip.Domain.Usecase.publish_checked Trips.update
    share_trip.Service.Trips.create_trip share_trip.Service.Validate.validate_create_trip_command
    share_trip.Base.Text.trim_space share_trip.Service.Transaction.tx
    share_trip.Domain.Usecase.create_trip Trips.create Outbox.create_outbox_event Outbox.put_event
    Outbox.pending_row
no_messages = refl

to_turn : Run json_env fresh after_turn
to_turn =
    later
      (later to_publication (
        delivery
          (record {
            outbox = after_publication.tables.outbox;
            topic = [];
            publisher = after_batch_lock.publisher;
          })
          (lock 0 (λ id. true) batch publication.1 (Outbox.lock_pending json_env publication.1).1
            refl (λ id. (λ h j e m. absurd (Memᴰ.not-nil m), λ h. refl)) seen locks)
          tt))
      (delivery
        (record {
          outbox = after_publication.tables.outbox;
          topic = delivering.1.topic;
          publisher = after_turn.publisher;
        })
        (turn 0 event_502 batch [] [] publication.1 delivering.1 refl unmarked no_messages delivers)
        tt)

pub to_delivered : Run json_env fresh delivered
to_delivered = later to_turn (
    delivery
      (record {
        outbox = apply_marks (mark ∷ []) after_publication.tables.outbox;
        topic = delivering.1.topic;
        publisher = delivered.publisher;
      })
      (commit 0 batch (mark ∷ []) refl) tt)
