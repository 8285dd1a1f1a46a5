-- ===== src/Lifecycle/Transition.antt =====
-- The specification of the service: the transitions that its tables make.
use share_trip.Base.{ℕ, ◌≤◌, String, ◌≡◌, refl, ap, ◌∙◌, some, arith, ◌==◌, Bool-cases, inl, inr}
use share_trip.Domain.{Uuid, TripStatus, draft, published, started, Trip}
use share_trip.World.{Tables}
use share_trip.Env.{Env}
use share_trip.Domain.Usecase.{new_event_id}
use share_trip.Domain.{event_type_trip_published}
use share_trip.Repository.Trips.{find_trip, replace_trip}
use share_trip.Repository.Outbox.{has_event}
use share_trip.Repository.Lookup.{find_trip-append, find_trip-replace_trip}
use share_trip.Repository.Effects.{find_trip-id}
use share_trip.Lifecycle.Changes.{IsCreated, IsPublished, IsStarted, moved}
use share_trip.Lifecycle.Consistency.{
  IsConsistent, IsInjective, IsCreated-IsConsistent, IsPublished-IsConsistent,
  IsStarted-IsConsistent,
}

-- Rows of the outbox have changed, and none has come or gone.
pub record IsOutboxOnly (t u : Tables) : Type 0 where
  pub others : u ≡ record t { outbox = u.outbox }
  pub same_events : (id : Uuid) → has_event id u.outbox ≡ has_event id t.outbox

pub data Transition (env : Env) (t u : Tables) : Type 0 where
  unchanged : u ≡ t → Transition env t u
  created : (trip : Trip) → IsCreated trip t u → Transition env t u
  published_trip :
      {from : String × String} {trip_id client_id : Uuid}
      → IsPublished env from trip_id client_id t u
      → Transition env t u
  started_trip : {trip_id client_id : Uuid} → IsStarted trip_id client_id t u → Transition env t u
  delivered : IsOutboxOnly t u → Transition env t u

pub Transition-IsConsistent :
    {env : Env} {t u : Tables}
    → IsInjective env
    → Transition env t u
    → IsConsistent env t
    → IsConsistent env u
Transition-IsConsistent i (unchanged same) k = rw same k
Transition-IsConsistent {env} i (created trip c) k = IsCreated-IsConsistent env i trip c k
Transition-IsConsistent {env} i (published_trip p) k = IsPublished-IsConsistent env i p k
Transition-IsConsistent {env} i (started_trip p) k = IsStarted-IsConsistent env i p k
Transition-IsConsistent {env} i (delivered d) k =
    let others = d.others in
    record {
      at = λ id.
          let at_id = k.at id in
          let key = new_event_id env id event_type_trip_published in
          record {
            tracked = ground (arith, others);
            announced = ground (arith, others, d.same_events key);
          };
      chained = rw others k.chained;
    }

-- How far a trip has come; the program never writes the last four.
abbrev pub rank : TripStatus → ℕ
rank draft = 0
rank published = 1
rank started = 2
rank _ = 3

-- The same trip, at least as far.
pub record IsForward (a b : Trip) : Type 0 where
  pub same_id : b.id ≡ a.id
  pub same_driver : b.driver_id ≡ a.driver_id
  pub same_seats : b.seats ≡ a.seats
  pub no_less : rank a.status ≤ rank b.status

pub IsForward-refl : (a : Trip) → IsForward a a
IsForward-refl a = record {
  same_id = refl;
  same_driver = refl;
  same_seats = refl;
  no_less = omega arith;
}

pub IsForward-trans : {a b c : Trip} → IsForward a b → IsForward b c → IsForward a c
IsForward-trans p q = record {
  same_id = q.same_id ∙ p.same_id;
  same_driver = q.same_driver ∙ p.same_driver;
  same_seats = q.same_seats ∙ p.same_seats;
  no_less = omega (arith, p.no_less, q.no_less);
}

-- A row at `id` stays, and has only moved forward.
abbrev pub Kept : Uuid → Trip → Tables → Type 0
Kept id a u = (b : Trip) × (find_trip id u.trips ≡ some b) × IsForward a b

module _ (t : Tables) (id : Uuid) (a : Trip) (found : find_trip id t.trips ≡ some a) where
  -- One row has moved forward.
  moved-Kept :
      (trip_id : Uuid) (trip new : Trip) (u : Tables)
      → find_trip trip_id t.trips ≡ some trip
      → new.id ≡ trip.id
      → IsForward trip new
      → u.trips ≡ replace_trip new t.trips
      → Kept id a u
  moved-Kept trip_id trip new u other same f e =
      let key : trip.id ≡ trip_id = find_trip-id trip_id _ other in
      let lookup = find_trip-replace_trip id new t.trips in
      elim (Bool-cases (new.id == id)) [
        | inl here ↦ let row : trip ≡ a = ground arith in (new, ground arith, rw row at f)
        | inr there ↦ (a, ground arith, IsForward-refl a)
      ]

  created-Kept : (trip : Trip) (u : Tables) → IsCreated trip t u → Kept id a u
  created-Kept trip u c =
      let lookup = find_trip-append id trip t.trips in
      (a, ground (arith, c.after), IsForward-refl a)

-- A transition keeps every trip, and moves it forward if at all.
pub Transition-Kept :
    {env : Env} {t u : Tables} (id : Uuid) (a : Trip)
    → find_trip id t.trips ≡ some a
    → Transition env t u
    → Kept id a u
Transition-Kept id a found (unchanged same) = (a, ground arith, IsForward-refl a)
Transition-Kept {t = t} {u = u} id a found (created trip c) = created-Kept t id a found trip u c
Transition-Kept {t = t} {u = u} id a found (published_trip {trip_id = trip_id} p) =
    let new = moved p.trip published p.now in
    let forward : IsForward p.trip new = record {
      same_id = refl;
      same_driver = refl;
      same_seats = refl;
      no_less = ground (arith, p.is_draft);
    } in
    moved-Kept t id a found trip_id p.trip new u p.found refl forward
      (ap (λ (v : Tables). v.trips) p.after)
Transition-Kept {t = t} {u = u} id a found (started_trip {trip_id = trip_id} p) =
    let new = moved p.trip started p.now in
    let forward : IsForward p.trip new = record {
      same_id = refl;
      same_driver = refl;
      same_seats = refl;
      no_less = ground (arith, p.is_published);
    } in
    moved-Kept t id a found trip_id p.trip new u p.found refl forward
      (ap (λ (v : Tables). v.trips) p.after)
Transition-Kept id a found (delivered d) =
    (a, ap (λ (v : Tables). find_trip id v.trips) d.others ∙ found, IsForward-refl a)
