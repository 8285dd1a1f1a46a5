-- ===== src/Repository/Reliable.antt =====
-- The repositories over a database that answers: what each method returns.
use share_trip.Base.{ℕ, true, ◌≡◌, Option, none, some, arith}
use share_trip.GoError.{sentinel, Sentinel-discrete, trip_not_found}
use share_trip.Result.{Result, ok, err}
use share_trip.Domain.{Uuid, Trip, OutboxEvent}
use share_trip.World.{World}
use share_trip.Env.{Env, committed}
use share_trip.Repository.Trips.{
  find_trip, fits_int4, check_seats, get_for_update_by_id, get_trip_by_id, update,
}
use share_trip.Repository.Outbox.{create_outbox_event}

-- Every statement runs and every transaction commits.
pub record IsReliable (env : Env) : Type 0 where
  pub runs : (n : ℕ) → env.fault n ≡ none
  pub commits : (n : ℕ) → env.commit n ≡ committed

-- The constraints that a row of `trips` meets.
pub record HasSeats (trip : Trip) : Type 0 where
  pub fits : fits_int4 trip.seats ≡ true
  pub positive : check_seats trip.seats ≡ true

abbrev pub found_or_error : Option Trip → Result Trip
found_or_error none = err (sentinel trip_not_found)
found_or_error (some t) = ok t

module _ (env : Env) (reliable : IsReliable env) (w : World) where
  pub get_for_update_by_id-found_or_error :
      (id : Uuid)
      → ((get_for_update_by_id env id w).0 ≡ found_or_error (find_trip id w.tables.trips))
        × ((get_for_update_by_id env id w).1.tables ≡ w.tables)
  unfolding get_for_update_by_id Sentinel-discrete
  get_for_update_by_id-found_or_error id =
      let r = reliable.runs w.tick in (ground arith, ground arith)

  pub get_trip_by_id-found_or_error :
      (id : Uuid) → (get_trip_by_id env id w).0 ≡ found_or_error (find_trip id w.tables.trips)
  unfolding get_trip_by_id Sentinel-discrete
  get_trip_by_id-found_or_error id = let r = reliable.runs w.tick in ground arith

  pub update_reliable :
      (trip : Trip) {old : Trip}
      → find_trip trip.id w.tables.trips ≡ some old
      → HasSeats trip
      → (update env trip w).0
        ≡ ok (record trip { created_at = old.created_at; updated_at = w.tx_time })
  unfolding update
  update_reliable trip found seats =
      let r = reliable.runs w.tick in let a = seats.fits in let b = seats.positive in ground arith

  pub create_outbox_event_reliable :
      (event : OutboxEvent) → (create_outbox_event env event w).0 ≡ ok tt
  unfolding create_outbox_event
  create_outbox_event_reliable event = let r = reliable.runs w.tick in ground arith
