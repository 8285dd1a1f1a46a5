-- ===== src/Tests/Trips.antt =====
-- Creating and starting trips, transactions, and runs of the service.
use share_trip.Base.{
  ℕ, String, true, ◌≡◌, refl, ◌⊎◌, ◌↔◌, none, some, Option, List, [], ◌∷◌, map, arith,
}
use share_trip.Base.Int.{pos}
use share_trip.GoError.{GoError}
use share_trip.Result.{Result, ok}
use share_trip.Domain.{Uuid, Time, Trip, TripStatus, draft, published, started}
use share_trip.Domain.Usecase.{draft_of, new_event_id}
use share_trip.World.{World}
use share_trip.Lifecycle.Changes.{IsCreated, IsStarted}
use share_trip.Lifecycle.Consistency.{IsInjective}
use share_trip.Service.Trips.{create_trip, start_trip}
use share_trip.Service.Validate.{CreateTripCommand, validate_create_trip_command}
use share_trip.Service.Creating.{create_trip_atomic}
use share_trip.Service.Starting.{start_checked, start_trip_atomic}
use share_trip.Service.Transaction.{transact, begun}
use share_trip.System.{empty_tables}
use share_trip.Repository.Trips
use share_trip.Wiring.{trip_service}
use share_trip.Api.Handlers
use share_trip.Api.Handlers.{CreateTripBody, client_id_from_claims}
use share_trip.Api.Routes.{final_status}
use share_trip.Api.Starting.{start_status}
use share_trip.Api.Creating.{create_status}
use share_trip.Repository.Reliable.{IsReliable, HasSeats}
use share_trip.Repository.Trips.{find_trip, fits_int4, check_seats}
use share_trip.Wiring.{server}
use share_trip.Tests.Setup.{claims}
use share_trip.Tests.Setup.{env, context, command, trip_in, tables_with, world}

abbrev pub empty : World
empty = world empty_tables

abbrev pub wanted : CreateTripCommand
wanted = record {
  driver_id = 7;
  from_point = "A";
  to_point = "B";
  departure_time = pos 900;
  seats = pos 3;
}

abbrev creating : Result Trip × World
creating = create_trip env (trip_service env) wanted empty

abbrev pub new_trip : Trip
new_trip = record (trip_in draft) { id = 502; created_at = pos 1; updated_at = pos 1 }

creating_returns : creating.0 ≡ ok new_trip
unfolding create_trip validate_create_trip_command share_trip.Base.Text.trim_space
    share_trip.Service.Transaction.tx share_trip.Domain.Usecase.create_trip Trips.create
creating_returns = refl

create_trip_atomic_example :
    (creating.1.tables ≡ empty_tables)
    ⊎ ((trip : Trip) × IsCreated trip empty_tables creating.1.tables × (trip.driver_id ≡ 7))
create_trip_atomic_example = create_trip_atomic env wanted empty

abbrev listed : World
listed = world (tables_with published)

abbrev starting : Result Uuid × World
starting = start_trip env (trip_service env) context command listed

starting_returns : starting.0 ≡ ok 1
unfolding start_trip share_trip.Contract.check_service share_trip.Service.Transaction.tx
    Trips.get_for_update_by_id share_trip.Domain.start share_trip.Domain.TripStatus-discrete
    Trips.update
starting_returns = refl

start_trip_atomic_example :
    (starting.1.tables ≡ listed.tables) ⊎ IsStarted 1 7 listed.tables starting.1.tables
start_trip_atomic_example = start_trip_atomic env context command listed

pub env-IsInjective : IsInjective env
unfolding new_event_id
env-IsInjective a b h = omega arith

abbrev pub no_ping : ℕ → Option GoError
no_ping n = none

pub env-IsReliable : IsReliable env
env-IsReliable = record { runs = λ n. refl; commits = λ n. refl }

pub client_known : client_id_from_claims env (some claims) ≡ ok 7
unfolding client_id_from_claims share_trip.Config.number
client_known = refl

start_permitted :
    (start_checked env context command listed).0 ≡ ok (record { allowed = true; reason = "" })
unfolding share_trip.Contract.check_service
start_permitted = refl

listed-HasSeats : (trip : Trip) → find_trip 1 listed.tables.trips ≡ some trip → HasSeats trip
unfolding find_trip fits_int4 check_seats
listed-HasSeats trip h = record { fits = ground arith; positive = ground arith }

start_status_example :
    final_status
      (Handlers.start_trip env (server env no_ping) (some claims) context (ok 1) listed).0
    ≡ 200
unfolding find_trip
start_status_example =
    start_status env env-IsReliable no_ping (some claims) context 1 listed client_known
      (record { allowed = true; reason = "" }) start_permitted refl listed-HasSeats

-- More seats than the column holds.
abbrev crowd : CreateTripBody
crowd = record {
  from_point = "A";
  to_point = "B";
  departure_time = pos 900;
  available_seats = pos 0x80000000;
}

pub empty_fresh : (n : ℕ) → find_trip (env.gen_random_uuid n) empty.tables.trips ≡ none
unfolding find_trip
empty_fresh n = refl

-- A place that the column cannot hold.
abbrev nowhere : CreateTripBody
nowhere = record {
  from_point = "A\0";
  to_point = "B";
  departure_time = pos 900;
  available_seats = pos 3;
}

nowhere_gets_500 :
    final_status (Handlers.create_trip env (server env no_ping) (some claims) (ok nowhere) empty).0
    ≡ 500
unfolding validate_create_trip_command fits_int4 Trips.is_storable Trips.has_nul
    share_trip.Base.Text.trim_space
nowhere_gets_500 =
    create_status env env-IsReliable no_ping (some claims) nowhere empty client_known empty_fresh
