-- ===== src/Repository/Lookup.antt =====
-- What each change of a table does to a lookup by key.
use share_trip.Base.{
  true, ◌≡◌, refl, Option, none, some, List, [], ◌∷◌, ◌++◌, arith, ◌==◌, if◌then◌else◌,
}
use share_trip.Domain.{Uuid, Trip, OutboxEvent}
use share_trip.Repository.Trips.{find_trip, replace_trip}
use share_trip.Repository.Outbox.{has_event, put_event, update_event}

abbrev pub or_added : Uuid → Trip → Option Trip → Option Trip
or_added id new none = if new.id == id then some new else none
or_added id new (some t) = some t

pub find_trip-append :
    (id : Uuid) (new : Trip) (ts : List Trip)
    → find_trip id (ts ++ (new ∷ [])) ≡ or_added id new (find_trip id ts)
unfolding find_trip
find_trip-append id new [] = refl
find_trip-append id new (t ∷ ts) = ground (arith, find_trip-append id new ts)

abbrev pub or_replaced : Trip → Option Trip → Option Trip
or_replaced new none = none
or_replaced new (some t) = some new

pub find_trip-replace_trip :
    (id : Uuid) (new : Trip) (ts : List Trip)
    → find_trip id (replace_trip new ts)
      ≡ (if new.id == id then or_replaced new (find_trip id ts) else find_trip id ts)
unfolding find_trip replace_trip
find_trip-replace_trip id new [] = ground arith
find_trip-replace_trip id new (t ∷ ts) = ground (arith, find_trip-replace_trip id new ts)

has_event-append :
    (id : Uuid) (row : OutboxEvent) (es : List OutboxEvent)
    → has_event id (es ++ (row ∷ [])) ≡ (if row.id == id then true else has_event id es)
unfolding has_event
has_event-append id row [] = refl
has_event-append id row (e ∷ es) = ground (arith, has_event-append id row es)

pub has_event-put_event :
    (id : Uuid) (row : OutboxEvent) (es : List OutboxEvent)
    → has_event id (put_event row es) ≡ (if row.id == id then true else has_event id es)
unfolding put_event
has_event-put_event id row es = ground (arith, has_event-append id row es)

pub has_event-update_event :
    (id : Uuid) (key : Uuid) (f : OutboxEvent → OutboxEvent) (es : List OutboxEvent)
    → ((e : OutboxEvent) → (f e).id ≡ e.id)
    → has_event id (update_event key f es) ≡ has_event id es
unfolding has_event update_event
has_event-update_event id key f [] h = refl
has_event-update_event id key f (e ∷ es) h =
    ground (arith, h e, has_event-update_event id key f es h)
