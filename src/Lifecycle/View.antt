-- ===== src/Lifecycle/View.antt =====
-- The service in the abstract: where each trip stands in its life, and nothing of rows and their order.
use share_trip.Base.{◌≡◌, ◌≢◌, ap, ◌⊎◌, inl, inr, some, Option, arith}
use share_trip.Domain.{Uuid, TripStatus, draft, published, started}
use share_trip.World.{Tables}
use share_trip.Env.{Env}
use share_trip.Repository.Trips.{find_trip}
use share_trip.Repository.Lookup.{find_trip-append, find_trip-replace_trip}
use share_trip.Repository.Effects.{find_trip-id}
use share_trip.Lifecycle.Changes.{moved}
use share_trip.Lifecycle.Consistency.{status_in, IsTransition}
use share_trip.Lifecycle.Transition.{
  Transition, unchanged, created, published_trip, started_trip, delivered,
}

-- The status of every trip, `none` for a trip that is not there.
abbrev pub View : Type 0
View = Uuid → Option TripStatus

abbrev pub view : Tables → View
view t id = status_in (find_trip id t.trips)

-- One trip has made one step of its life, and the others stand still.
pub record Moves (v v' : View) : Type 0 where
  pub trip_id : Uuid
  pub status : TripStatus
  pub step : IsTransition (v trip_id) status
  pub arrived : v' trip_id ≡ some status
  pub others : (id : Uuid) → id ≢ trip_id → v' id ≡ v id

pub Transition-Moves :
    {env : Env} {t u : Tables}
    → Transition env t u
    → ((id : Uuid) → view u id ≡ view t id) ⊎ Moves (view t) (view u)
Transition-Moves (unchanged same) = inl (λ id. ap (λ (u : Tables). view u id) same)
Transition-Moves {t = t} {u = u} (created trip c) =
    let rows = ap (λ (u : Tables). u.trips) c.after in
    let lookup = λ (id : Uuid). find_trip-append id trip t.trips in
    inr (record {
      trip_id = trip.id;
      status = draft;
      step = let fresh = c.fresh in ground arith;
      arrived = let there = lookup trip.id in ground (arith, c.fresh, c.is_draft);
      others = λ id ne. let there = lookup id in ground arith;
    })
Transition-Moves {t = t} (published_trip {trip_id = trip_id} p) =
    let rows = ap (λ (u : Tables). u.trips) p.after in
    let key = find_trip-id trip_id t.trips p.found in
    let lookup = λ (id : Uuid). find_trip-replace_trip id (moved p.trip published p.now) t.trips in
    inr (record {
      trip_id = trip_id;
      status = published;
      step = ground (arith, p.found, p.is_draft);
      arrived = let there = lookup trip_id in ground (arith, p.found);
      others = λ id ne. let there = lookup id in ground arith;
    })
Transition-Moves {t = t} (started_trip {trip_id = trip_id} p) =
    let rows = ap (λ (u : Tables). u.trips) p.after in
    let key = find_trip-id trip_id t.trips p.found in
    let lookup = λ (id : Uuid). find_trip-replace_trip id (moved p.trip started p.now) t.trips in
    inr (record {
      trip_id = trip_id;
      status = started;
      step = ground (arith, p.found, p.is_published);
      arrived = let there = lookup trip_id in ground (arith, p.found);
      others = λ id ne. let there = lookup id in ground arith;
    })
Transition-Moves (delivered d) = inl (λ id. ap (λ (u : Tables). view u id) d.others)
