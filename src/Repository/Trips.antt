-- ===== src/Repository/Trips.antt =====
-- create_trip.go, get_trip_by_id.go, get_trip_for_update_by_id.go and update_trip.go, with the
-- constraints of migrations/00002_create_trips.sql.
use share_trip.Base.{
  Bool, true, false, ◌&&◌, not, Option, none, some, List, [], ◌∷◌, ◌++◌, ◌==◌, if◌then◌else◌,
  String, ◌||◌,
}
use share_trip.Base.Int.{ℤ, pos, negsuc, ltb_ℤ, leb_ℤ}
use share_trip.GoError.{GoError, sentinel, message, no_rows}
use share_trip.Result.{ok, err}
use Prim.Native.Char.{code}
use share_trip.Domain.{Uuid, Time, Trip, ◌is◌}
use share_trip.Metrics.{
  operation_trip_create, operation_trip_get_by_id, operation_trip_get_for_update_by_id,
  operation_trip_update,
}
use share_trip.World.{History, Action, annotate, ◌>>=◌, ◌>>◌, pure}
use share_trip.Env.{Env}
use share_trip.Repository.Statement.{Statement, execute, observed, observed_row}

-- `WHERE id = $1`
unfoldable pub find_trip : Uuid → List Trip → Option Trip
find_trip id [] = none
find_trip id (t ∷ ts) = if t.id == id then some t else find_trip id ts

unfoldable pub replace_trip : Trip → List Trip → List Trip
replace_trip t [] = []
replace_trip t (u ∷ us) = if u.id == t.id then t ∷ us else u ∷ replace_trip t us

-- The driver sends an `INT`, four bytes wide.
unfoldable pub fits_int4 : ℤ → Bool
fits_int4 n = leb_ℤ (negsuc 0x7fffffff) n && leb_ℤ n (pos 0x7fffffff)

-- TEXT refuses the character U+0000.
unfoldable pub has_nul : String → Bool
has_nul String.[] = false
has_nul (String.◌∷◌ c s) = if code c == 0 then true else has_nul s

-- What the columns of a trip can hold.
unfoldable pub is_storable : (from_point to_point : String) (seats : ℤ) → Bool
is_storable from_point to_point seats =
    fits_int4 seats && (not (has_nul from_point) && not (has_nul to_point))

-- The row's constraints: `CHECK (available_seats > 0)`.
unfoldable pub check_seats : ℤ → Bool
check_seats n = ltb_ℤ (pos 0) n

abbrev pub bad_parameter : GoError
bad_parameter = message "unable to encode value into binary format for int4"

abbrev pub invalid_text : GoError
invalid_text = message "invalid byte sequence for encoding UTF8: 0x00"

abbrev pub check_violation : GoError
check_violation = message "new row violates check constraint trips_available_seats_check"

abbrev pub duplicate_key : GoError
duplicate_key = message "duplicate key value violates unique constraint trips_pkey"

-- `INSERT INTO trips … RETURNING …`
unfoldable pub insert_trip : (timestamptz : Time → Time) → Trip → Statement Trip
unfolding fits_int4 has_nul check_seats find_trip
insert_trip timestamptz trip now id t =
    if not (fits_int4 trip.seats)
    then (err bad_parameter, t)
    else if has_nul trip.from_point || has_nul trip.to_point
    then (err invalid_text, t)
    else if not (check_seats trip.seats)
    then (err check_violation, t)
    else elim (find_trip id t.trips) [
      | some _ ↦ (err duplicate_key, t)
      | none ↦
          let created = record trip {
            id = id;
            departure_time = timestamptz trip.departure_time;
            created_at = now;
            updated_at = now;
          } in
          (ok created, record t { trips = t.trips ++ (created ∷ []) })
    ]

-- `INSERT INTO trip_history (trip_id, from_status, to_status) VALUES ($1, NULL, $2)`
unfoldable pub insert_history : Trip → Statement (Unit {0})
insert_history trip now id t = (
  ok tt,
  record t {
    history = record { trip_id = trip.id; from_status = none; to_status = trip.status } ∷ t.history;
  },
)

-- `SELECT … FROM trips WHERE id = $1`, and the same `FOR UPDATE`
unfoldable pub select_trip : Uuid → Statement Trip
unfolding find_trip
select_trip id now _ t = elim (find_trip id t.trips) [
  | none ↦ (err (sentinel no_rows), t)
  | some trip ↦ (ok trip, t)
]

-- The `history` part of the update: a row only if the status changes.
unfoldable pub record_change : Trip → Trip → List History → List History
record_change old new rows = elim (old.status is new.status) [
  | true ↦ rows
  | false ↦
      record { trip_id = new.id; from_status = some old.status; to_status = new.status } ∷ rows
]

-- The statement of `Update`: the old status, the update and the history row in one. The texts and the
-- time of departure come from a row, so that the columns hold them as they are.
unfoldable pub update_trip : Trip → Statement Trip
unfolding fits_int4 check_seats find_trip replace_trip record_change
update_trip trip now _ t =
    if not (fits_int4 trip.seats)
    then (err bad_parameter, t)
    else elim (find_trip trip.id t.trips) [
      | none ↦ (err (sentinel no_rows), t)
      | some old ↦
          if not (check_seats trip.seats)
          then (err check_violation, t)
          else let updated = record trip { created_at = old.created_at; updated_at = now } in
            (
              ok updated,
              record t {
                trips = replace_trip updated t.trips;
                history = record_change old updated t.history;
              },
            )
    ]

-- `PostgresTripRepository`
module _ (env : Env) where
  unfoldable pub create : Trip → Action Trip
  unfolding execute insert_trip insert_history observed
  create trip = observed operation_trip_create do
    created ← annotate "insert trip" (execute env (insert_trip env.timestamptz trip))
    annotate "insert trip history" (execute env (insert_history created))
    pure created

  unfoldable pub get_trip_by_id : Uuid → Action Trip
  unfolding execute select_trip observed_row
  get_trip_by_id id =
      observed_row operation_trip_get_by_id "get trip by id" (execute env (select_trip id))

  unfoldable pub get_for_update_by_id : Uuid → Action Trip
  unfolding execute select_trip observed_row
  get_for_update_by_id id =
      observed_row operation_trip_get_for_update_by_id "get trip by id for update"
        (execute env (select_trip id))

  unfoldable pub update : Trip → Action Trip
  unfolding execute update_trip observed_row
  update trip = observed_row operation_trip_update "update trip" (execute env (update_trip trip))
