-- ===== src/Lifecycle/Consistency.antt =====
-- An invariant of the tables: the history is the trips' story, status by status, and the
-- outbox has a trip's event exactly when the trip has been published.
use share_trip.Base.{
  String, Bool, true, false, ◌≡◌, Option, none, some, List, [], ◌∷◌, arith, ◌==◌, if◌then◌else◌,
}
use share_trip.Domain.{Uuid, TripStatus, draft, published, started, Trip, event_type_trip_published}
use share_trip.World.{Tables, History}
use share_trip.Env.{Env}
use share_trip.Domain.Usecase.{new_event_id}
use share_trip.Repository.Trips.{find_trip}
use share_trip.Repository.Outbox.{has_event}
use share_trip.Repository.Lookup.{find_trip-append, find_trip-replace_trip, has_event-put_event}
use share_trip.Lifecycle.Changes.{moved, IsCreated, IsPublished, IsStarted}
use share_trip.Repository.Effects.{find_trip-id}

-- The status that the history records for a trip, `none` for a trip that it does not know.
unfoldable pub last_status : Uuid → List History → Option TripStatus
last_status id [] = none
last_status id (h ∷ hs) = if h.trip_id == id then some h.to_status else last_status id hs

abbrev pub status_in : Option Trip → Option TripStatus
status_in none = none
status_in (some t) = some t.status

-- A status whose trip has announced its publication.
abbrev pub is_announced : Option TripStatus → Bool
is_announced (some published) = true
is_announced (some started) = true
is_announced _ = false

-- The steps of a trip's life.
abbrev pub IsTransition : Option TripStatus → TripStatus → Type 0
IsTransition none draft = Unit
IsTransition (some draft) published = Unit
IsTransition (some published) started = Unit
IsTransition _ _ = ⊥

-- Each row continues where the trip's row before it ended, by a step of a trip's life.
abbrev pub IsChained : List History → Type 0
IsChained [] = Unit
IsChained (h ∷ hs) =
    (h.from_status ≡ last_status h.trip_id hs)
    × IsTransition h.from_status h.to_status
    × IsChained hs

module _ (env : Env) where
  -- The state of the tables at one trip id.
  pub record IsConsistentAt (id : Uuid) (t : Tables) : Type 0 where
    pub tracked : last_status id t.history ≡ status_in (find_trip id t.trips)
    pub announced :
        has_event (new_event_id env id event_type_trip_published) t.outbox
        ≡ is_announced (status_in (find_trip id t.trips))

  pub record IsConsistent (t : Tables) : Type 0 where
    pub at : (id : Uuid) → IsConsistentAt id t
    pub chained : IsChained t.history

  -- Ids of events tell trips apart, as version 5 UUIDs are made to do.
  abbrev pub IsInjective : Type 0
  IsInjective =
      (a b : Uuid)
      → new_event_id env a event_type_trip_published ≡ new_event_id env b event_type_trip_published
      → a ≡ b

  module _ (injective : IsInjective) {t u : Tables} where
    pub IsCreated-IsConsistent :
        (trip : Trip) → IsCreated trip t u → IsConsistent t → IsConsistent u
    unfolding last_status
    IsCreated-IsConsistent trip c k = record {
      at = λ id.
          let here = k.at id in
          let lookup = find_trip-append id trip t.trips in
          record { tracked = ground (arith, c.fresh, c.is_draft); announced = ground arith };
      chained = let here = k.at trip.id in ground arith;
    }

    pub IsPublished-IsConsistent :
        {from : String × String} {trip_id client_id : Uuid}
        → IsPublished env from trip_id client_id t u
        → IsConsistent t
        → IsConsistent u
    unfolding last_status
    IsPublished-IsConsistent {trip_id} p k =
        let same : p.trip.id ≡ trip_id = find_trip-id trip_id t.trips p.found in
        let new = moved p.trip published p.now in
        record {
          at = λ id.
              let here = k.at id in
              let lookup = find_trip-replace_trip id new t.trips in
              let key = new_event_id env id event_type_trip_published in
              let event = has_event-put_event key p.event t.outbox in
              record {
                tracked = ground (arith, p.found, p.after);
                announced = ground (arith, p.found, p.after, p.event_id, injective trip_id id);
              };
          chained =
              let here = k.at trip_id in ground (arith, p.found, p.after, p.is_draft, k.chained);
        }

    pub IsStarted-IsConsistent :
        {trip_id client_id : Uuid}
        → IsStarted trip_id client_id t u
        → IsConsistent t
        → IsConsistent u
    unfolding last_status
    IsStarted-IsConsistent {trip_id} p k =
        let same : p.trip.id ≡ trip_id = find_trip-id trip_id t.trips p.found in
        let new = moved p.trip started p.now in
        record {
          at = λ id.
              let here = k.at id in
              let lookup = find_trip-replace_trip id new t.trips in
              record {
                tracked = ground (arith, p.found, p.after);
                announced = ground (arith, p.found, p.after, p.is_published);
              };
          chained =
              let here = k.at trip_id in
              ground (arith, p.found, p.after, p.is_published, k.chained);
        }
