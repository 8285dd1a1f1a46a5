-- ===== src/Tests/Cluster.antt =====
-- The theorems on the whole service, at the run of Tests/Deployed.antt.
use share_trip.Base.{select, ℕ, ◌≡◌, refl, ◌⊎◌, true, some, List, [], ◌∷◌, at, arith}
use mathlib.Core.List.{Memᴰ}
use mathlib.Core.List.Memᴰ.{head}
use share_trip.Domain.{Uuid, Trip, OutboxEvent, published, event_type_trip_published}
use share_trip.Domain.Usecase.{new_event_id}
use share_trip.World.{World, Message}
use share_trip.Repository.Trips
use share_trip.Repository.Trips.{find_trip}
use share_trip.Repository.Outbox
use share_trip.Repository.Outbox.{is_pending}
use share_trip.Lifecycle.Consistency.{is_announced}
use share_trip.Concurrent.{}
use share_trip.Events.{producer, publish_event}
use share_trip.Cluster.Invariant.{IsSound, Run-IsSound}
use share_trip.Cluster.Announced.{Announces, published-Announces, message-Announces}
use share_trip.Cluster.Eventually.{Continues, calm, eventually_announced}
use share_trip.Repository.Backlog.{backlog}
use share_trip.Events.{run}
use share_trip.Events.Starvation.{ticks}
use share_trip.Wiring.{outbox_queue}
use share_trip.Cluster.Refinement.{Step-Moves}
use share_trip.Lifecycle.View.{Moves, view}
use share_trip.Service.Trips.{TripCommand}
use share_trip.Tests.Json.{json_env, json_env-JsonRoundTrip}
use share_trip.Tests.Trips.{new_trip}
use share_trip.Tests.Deployed.{
  json_env-IsInjective, to_delivered, delivered, publication, after_lock, to_lock, publishing_step,
  after_publication, to_publication,
}

Run-IsSound_example : IsSound json_env delivered
Run-IsSound_example = Run-IsSound json_env json_env-IsInjective to_delivered

abbrev published_502 : Trip
published_502 = record new_trip { status = published; updated_at = publication.1.tx_time }

has_row : find_trip 502 delivered.tables.trips ≡ some published_502
unfolding find_trip share_trip.Domain.Usecase.may_publish share_trip.Domain.TripStatus-discrete
    share_trip.Domain.Usecase.publish_checked Trips.update share_trip.Service.Trips.create_trip
    share_trip.Service.Validate.validate_create_trip_command share_trip.Base.Text.trim_space
    share_trip.Service.Transaction.tx share_trip.Domain.Usecase.create_trip Trips.create
    Outbox.create_outbox_event
has_row = refl

published-Announces_example :
    (e : OutboxEvent) × Memᴰ e delivered.tables.outbox
    × (e.id ≡ new_event_id json_env 502 event_type_trip_published)
    × ((is_pending e ≡ true) ⊎ ((m : Message) × Memᴰ m delivered.topic × Announces json_env 502 m))
published-Announces_example =
    published-Announces json_env json_env-JsonRoundTrip json_env-IsInjective to_delivered 502
      published_502 has_row refl

abbrev first_of : List Message → Message
first_of [] = record { key = ""; value = ""; headers = [] }
first_of (m ∷ ms) = m

is_first : Memᴰ (first_of delivered.topic) delivered.topic
unfolding publish_event share_trip.Domain.Usecase.may_publish share_trip.Domain.TripStatus-discrete
    share_trip.Domain.Usecase.publish_checked Trips.update share_trip.Service.Trips.create_trip
    share_trip.Service.Validate.validate_create_trip_command share_trip.Base.Text.trim_space
    share_trip.Service.Transaction.tx share_trip.Domain.Usecase.create_trip Trips.create
    Outbox.create_outbox_event Outbox.put_event share_trip.Tests.Json.or_error
    share_trip.Tests.Json.decode share_trip.Tests.Json.read Outbox.pending_row
    share_trip.Tests.Json.read_number share_trip.Tests.Json.read_time share_trip.Tests.Json.encode
    share_trip.Tests.Json.write share_trip.Tests.Json.write_time share_trip.Tests.Json.write_number
    share_trip.Events.produce Outbox.mark_sent share_trip.Domain.Usecase.outbox_event
    share_trip.Domain.Usecase.trip_published share_trip.Base.Text.itoa
is_first = head refl

message-Announces_example :
    (id : Uuid) × (trip : Trip) × (find_trip id delivered.tables.trips ≡ some trip)
    × (is_announced (some trip.status) ≡ true)
    × Announces json_env id (first_of delivered.topic)
message-Announces_example =
    message-Announces json_env json_env-JsonRoundTrip json_env-IsInjective to_delivered
      (first_of delivered.topic) is_first

Step-Moves_example :
    ((id : Uuid) → view after_publication.tables id ≡ view after_lock.tables id)
    ⊎ Moves (view after_lock.tables) (view after_publication.tables)
Step-Moves_example = Step-Moves json_env to_lock publishing_step

-- The event waits still.
abbrev waiting : World
waiting = record publication.1 { topic = after_publication.topic }

one_waits : backlog after_publication.tables.outbox ≡ 1
unfolding share_trip.Domain.Usecase.may_publish share_trip.Domain.TripStatus-discrete
    share_trip.Domain.Usecase.publish_checked Trips.update share_trip.Service.Trips.create_trip
    share_trip.Service.Validate.validate_create_trip_command share_trip.Base.Text.trim_space
    share_trip.Service.Transaction.tx share_trip.Domain.Usecase.create_trip Trips.create
    Outbox.create_outbox_event Outbox.put_event Outbox.pending_row
one_waits = refl

has_row_before : find_trip 502 after_publication.tables.trips ≡ some published_502
unfolding find_trip share_trip.Domain.Usecase.may_publish share_trip.Domain.TripStatus-discrete
    share_trip.Domain.Usecase.publish_checked Trips.update share_trip.Service.Trips.create_trip
    share_trip.Service.Validate.validate_create_trip_command share_trip.Base.Text.trim_space
    share_trip.Service.Transaction.tx share_trip.Domain.Usecase.create_trip Trips.create
    Outbox.create_outbox_event
has_row_before = refl

waiting-Continues : Continues after_publication waiting
waiting-Continues = record { at_rest = λ i. refl; same_tables = refl; same_topic = refl }

eventually_announced_example :
    let w' =
      (run
        (calm json_env)
        (outbox_queue (calm json_env))
        (producer (calm json_env))
        (ticks 1)
        waiting).1 in
    (m : Message) × Memᴰ m w'.topic × Announces json_env 502 m
eventually_announced_example =
    eventually_announced json_env json_env-JsonRoundTrip json_env-IsInjective to_publication 1
      waiting waiting-Continues (omega (arith, one_waits)) 502 published_502 has_row_before refl
