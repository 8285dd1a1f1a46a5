-- ===== src/Lifecycle/Rows.antt =====
-- The rows that a publication and a start leave.
use share_trip.Base.{String, true, ◌≡◌, ap, some, arith}
use share_trip.Domain.{Uuid, Trip, published, started, event_type_trip_published}
use share_trip.Domain.Usecase.{new_event_id}
use share_trip.World.{Tables}
use share_trip.Env.{Env}
use share_trip.Repository.Trips.{find_trip}
use share_trip.Repository.Lookup.{find_trip-replace_trip, has_event-put_event}
use share_trip.Repository.Effects.{find_trip-id}
use share_trip.Repository.Outbox.{has_event}
use share_trip.Lifecycle.Changes.{IsPublished, IsStarted, moved}

module _ {id client : Uuid} {t u : Tables} where
  -- The row of a trip whose status has changed.
  pub IsStarted-found :
      (trip : Trip) (c : IsStarted id client t u)
      → find_trip id t.trips ≡ some trip
      → find_trip id u.trips ≡ some (moved trip started c.now)
  IsStarted-found trip c found =
      let row = moved c.trip started c.now in
      let lookup = find_trip-replace_trip id row t.trips in
      let same : c.trip.id ≡ id = find_trip-id id _ c.found in
      let a = c.found in let b = c.after in ground arith

  pub IsStarted-outbox : (c : IsStarted id client t u) → u.outbox ≡ t.outbox
  IsStarted-outbox c = ap (λ (v : Tables). v.outbox) c.after

  pub IsPublished-found :
      {env : Env} {from : String × String} (trip : Trip) (c : IsPublished env from id client t u)
      → find_trip id t.trips ≡ some trip
      → find_trip id u.trips ≡ some (moved trip published c.now)
  IsPublished-found trip c found =
      let row = moved c.trip published c.now in
      let lookup = find_trip-replace_trip id row t.trips in
      let same : c.trip.id ≡ id = find_trip-id id _ c.found in
      let a = c.found in let b = c.after in ground arith

  pub IsPublished-has_event :
      {env : Env} {from : String × String} (c : IsPublished env from id client t u)
      → has_event (new_event_id env id event_type_trip_published) u.outbox ≡ true
  IsPublished-has_event {env} c =
      let lookup =
        has_event-put_event (new_event_id env id event_type_trip_published) c.event t.outbox in
      let a = c.event_id in let b = c.after in ground arith
