-- ===== src/Tests/Concurrent.antt =====
-- Two drivers' requests on one trip.
use share_trip.Base.{at, ℕ, String, ◌≡◌, refl, some, ◌≤◌, arith, List, [], ◌∷◌, map}
use share_trip.Result.{ok}
use share_trip.Domain.{Uuid, Trip, TripStatus, draft, published}
use share_trip.World.{World}
use share_trip.Repository.Trips
use share_trip.Repository.Trips.{find_trip}
use share_trip.Lifecycle.Consistency.{IsConsistent}
use share_trip.Lifecycle.Transition.{Transition, Kept}
use share_trip.System.{Reach, create, publish, perform, empty_tables}
use share_trip.System.Reachable.{perform-Transition, Reach-Kept}
use share_trip.Concurrent.{
  idle, publishing, System, publish_locked, Step, lock_to_publish, commit_publish, other_call, Run,
  quiet,
}
use share_trip.Concurrent.Locking.{quiet-IsLocked, Run-IsLocked, Step-Transition}
use share_trip.Concurrent.Refinement.{Run-IsConsistent, published_once}
use share_trip.Service.Trips.{TripCommand}
use share_trip.Tests.Trips.{wanted, new_trip, empty, env-IsInjective}
use share_trip.Tests.Setup.{env, context, command, trip_in, tables_with, world, drafted}

-- The world after the creation of trip 502.
abbrev made : World
made = perform env (create wanted) empty

abbrev made_command : TripCommand
made_command = record { trip_id = 502; client_id = 7 }

abbrev locked_system : System
locked_system = record {
  tables = made.tables;
  session = at (λ i. idle) 0 (publishing context made_command new_trip);
}

reads :
    Trips.get_for_update_by_id env 502 made
    ≡ (ok new_trip, (Trips.get_for_update_by_id env 502 made).1)
unfolding Trips.get_for_update_by_id share_trip.Service.Trips.create_trip
    share_trip.Service.Validate.validate_create_trip_command share_trip.Base.Text.trim_space
    share_trip.Service.Transaction.tx share_trip.Domain.Usecase.create_trip Trips.create
reads = refl

commits :
    publish_locked env context made_command new_trip made
    ≡ (ok 502, (publish_locked env context made_command new_trip made).1)
unfolding Trips.get_for_update_by_id share_trip.Domain.Usecase.may_publish
    share_trip.Domain.TripStatus-discrete share_trip.Domain.Usecase.publish_checked Trips.update
    share_trip.Service.Trips.create_trip share_trip.Service.Validate.validate_create_trip_command
    share_trip.Base.Text.trim_space share_trip.Service.Transaction.tx
    share_trip.Domain.Usecase.create_trip Trips.create
    share_trip.Repository.Outbox.create_outbox_event
commits = refl

to_lock : Run env (quiet empty_tables) locked_system
to_lock = Run.later (Run.later Run.here (other_call (create wanted) empty tt refl)) (
    lock_to_publish 0 context made_command new_trip made (Trips.get_for_update_by_id env 502 made).1
      refl (λ j h. absurd (ground arith)) refl reads)

abbrev committing : System
committing = record {
  tables = (publish_locked env context made_command new_trip made).1.tables;
  session = at locked_system.session 0 idle;
}

to_commit : Step env locked_system committing
to_commit =
    commit_publish 0 context made_command new_trip 502 made
      (publish_locked env context made_command new_trip made).1 refl refl commits

Step-Transition_example : Transition env locked_system.tables committing.tables
Step-Transition_example =
    Step-Transition env (Run-IsLocked env (quiet-IsLocked empty_tables) to_lock) to_commit

Run-IsConsistent_example : IsConsistent env committing.tables
Run-IsConsistent_example = Run-IsConsistent env env-IsInjective (Run.later to_lock to_commit)

perform-Transition_example :
    Transition env drafted.tables (perform env (publish context command) drafted).tables
perform-Transition_example = perform-Transition env (publish context command) drafted

drafted_row : find_trip 1 drafted.tables.trips ≡ some (trip_in draft)
unfolding find_trip
drafted_row = refl

Reach-Kept_example : Kept 1 (trip_in draft) (perform env (publish context command) drafted).tables
Reach-Kept_example =
    Reach-Kept env 1 (trip_in draft) drafted_row
      (Reach.next {v = drafted} Reach.here (publish context command))

-- A request locks a trip that is published already.
abbrev late : World
late = world (tables_with published)

late_row : find_trip 1 late.tables.trips ≡ some (trip_in published)
unfolding find_trip
late_row = refl

late_reads :
    Trips.get_for_update_by_id env 1 late
    ≡ (ok (trip_in published), (Trips.get_for_update_by_id env 1 late).1)
unfolding Trips.get_for_update_by_id
late_reads = refl

late_lock : Run env (quiet late.tables) (record {
  tables = late.tables;
  session = at (λ i. idle) 0 (publishing context command (trip_in published));
})
late_lock = Run.later Run.here (
    lock_to_publish 0 context command (trip_in published) late
      (Trips.get_for_update_by_id env 1 late).1 refl (λ j h. absurd (ground arith)) refl late_reads)

published_once_example :
    ¬ (publish_locked env context command (trip_in published) late ≡ (ok 1, late))
published_once_example =
    published_once env (trip_in published) 0 context command (trip_in published) late late
      (quiet-IsLocked late.tables) late_row (omega arith) late_lock refl refl
