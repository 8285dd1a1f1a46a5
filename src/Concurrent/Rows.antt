-- ===== src/Concurrent/Rows.antt =====
-- What the rest of a block, and a call without a lock, do to a row.
use share_trip.Base.{String, ◌≡◌, ◌≢◌, ap, ◌∙◌, some, arith, inl, inr}
use share_trip.Result.{ok, Result-cases}
use share_trip.Context.{Context, causes, with_trip_id}
use share_trip.Domain.{Uuid, Trip, published, started}
use share_trip.Domain.Usecase.{may_publish}
use share_trip.World.{World, Tables}
use share_trip.Env.{Env}
use share_trip.Repository.Trips.{find_trip}
use share_trip.Repository.Lookup.{find_trip-replace_trip, find_trip-append}
use share_trip.Repository.Effects.{find_trip-id}
use share_trip.Lifecycle.Changes.{IsPublished, IsStarted, IsCreated, moved}
use share_trip.Lifecycle.Transition.{}
use share_trip.Service.Trips.{TripCommand}
use share_trip.Service.Creating.{create_trip_atomic}
use share_trip.Events.Batch.{publish_batch_atomic}
use share_trip.Service.Publishing.{may_publish-eq-ok, publish_checked-eq-ok}
use share_trip.Service.Publishing.Outcome.{request}
use share_trip.System.{Call, create, get, publish, start, batch, perform}
use share_trip.System.Reachable.{get_trip_by_id-tables}
use share_trip.Concurrent.{IsLockFree, publish_locked}

pub publish_locked-IsPublished :
    (env : Env) (ctx : Context) (command : TripCommand) (trip : Trip) (w w' : World) {id : Uuid}
    → find_trip command.trip_id w.tables.trips ≡ some trip
    → publish_locked env ctx command trip w ≡ (ok id, w')
    → IsPublished env (causes ctx) command.trip_id command.client_id w.tables w'.tables
publish_locked-IsPublished env ctx command trip w w' {id} found h =
    elim (Result-cases (may_publish env (request command) trip)) [
      | inr (x, e) ↦ absurd (ground arith)
      | inl (x, e) ↦
          let ctx' = with_trip_id ctx (env.uuid_text command.trip_id) in
          let (driver, is_draft) = may_publish-eq-ok env (request command) trip {x = x} e in
          let (done, same) =
            publish_checked-eq-ok env ctx' (request command) w w' trip {id = id} found driver
              is_draft (ground arith) in
          done
    ]

pub IsPublished-others :
    {env : Env} {from : String × String} {trip_id client_id : Uuid} {t u : Tables} (id : Uuid)
    → IsPublished env from trip_id client_id t u
    → id ≢ trip_id
    → find_trip id u.trips ≡ find_trip id t.trips
IsPublished-others {trip_id = trip_id} {t = t} id p other =
    let key : p.trip.id ≡ trip_id = find_trip-id trip_id t.trips p.found in
    let lookup = find_trip-replace_trip id (moved p.trip published p.now) t.trips in
    ground (arith, p.after)

pub IsStarted-others :
    {trip_id client_id : Uuid} {t u : Tables} (id : Uuid)
    → IsStarted trip_id client_id t u
    → id ≢ trip_id
    → find_trip id u.trips ≡ find_trip id t.trips
IsStarted-others {trip_id} {t = t} id p other =
    let key : p.trip.id ≡ trip_id = find_trip-id trip_id t.trips p.found in
    let lookup = find_trip-replace_trip id (moved p.trip started p.now) t.trips in
    ground (arith, p.after)

IsCreated-row :
    {t u : Tables} (new : Trip) (id : Uuid) (a : Trip)
    → IsCreated new t u
    → find_trip id t.trips ≡ some a
    → find_trip id u.trips ≡ some a
IsCreated-row {t} new id a c found =
    let lookup = find_trip-append id new t.trips in ground (arith, c.after)

module _ (env : Env) where
  -- A call without a lock leaves every row as it is.
  pub other_call-row :
      (c : Call) (w : World) (id : Uuid) (a : Trip)
      → IsLockFree c
      → find_trip id w.tables.trips ≡ some a
      → find_trip id (perform env c w).tables.trips ≡ some a
  other_call-row (create command) w id a free found = elim (create_trip_atomic env command w) [
    | inl same ↦ ap (λ (t : Tables). find_trip id t.trips) same ∙ found
    | inr (new, c, driver) ↦ IsCreated-row new id a c found
  ]
  other_call-row (get key) w id a free found =
      ap (λ (t : Tables). find_trip id t.trips) (get_trip_by_id-tables env key w) ∙ found
  other_call-row (publish ctx command) w id a free found = absurd free
  other_call-row (start ctx command) w id a free found = absurd free
  other_call-row batch w id a free found = elim (publish_batch_atomic env w) [
    | inl same ↦ ap (λ (t : Tables). find_trip id t.trips) same ∙ found
    | inr (d, t) ↦ ap (λ (u : Tables). find_trip id u.trips) t ∙ found
  ]
