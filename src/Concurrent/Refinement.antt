-- ===== src/Concurrent/Refinement.antt =====
-- Interleaved requests against the specification.
use share_trip.Base.{ℕ, ◌≤◌, ◌≡◌, some, arith, ap, ◌∙◌}
use share_trip.Result.{ok}
use share_trip.Context.{Context}
use share_trip.Domain.{Uuid, Trip}
use share_trip.World.{World, Tables}
use share_trip.Env.{Env}
use share_trip.Repository.Trips.{find_trip}
use share_trip.Lifecycle.Consistency.{IsConsistent, IsInjective}
use share_trip.Lifecycle.Transition.{
  Transition-IsConsistent, Transition-Kept, Kept, rank, IsForward-refl, IsForward-trans,
}
use share_trip.Service.Trips.{TripCommand}
use share_trip.System.{empty_tables}
use share_trip.System.Reachable.{empty-IsConsistent}
use share_trip.Concurrent.{System, publishing, publish_locked, Run, here, later, quiet}
use share_trip.Concurrent.Rows.{publish_locked-IsPublished}
use share_trip.Concurrent.Locking.{IsLocked, Step-Transition, Run-IsLocked, quiet-IsLocked}

module _ (env : Env) where
  Run-IsConsistent_from :
      {s t : System}
      → IsInjective env
      → IsLocked s
      → IsConsistent env s.tables
      → Run env s t
      → IsConsistent env t.tables
  Run-IsConsistent_from injective l k here = k
  Run-IsConsistent_from injective l k (later r st) =
      Transition-IsConsistent injective (Step-Transition env (Run-IsLocked env l r) st)
        (Run-IsConsistent_from injective l k r)

  -- If event ids tell trips apart, then also where requests interleave, from empty tables on, the
  -- history tells the status of every trip step by step, and a trip has its event in the outbox
  -- exactly when it is published or started.
  pub Run-IsConsistent :
      {s : System} → IsInjective env → Run env (quiet empty_tables) s → IsConsistent env s.tables
  Run-IsConsistent injective r =
      Run-IsConsistent_from injective (quiet-IsLocked empty_tables) (empty-IsConsistent env) r

  Run-Kept :
      {s t : System} (id : Uuid) (a : Trip)
      → IsLocked s
      → find_trip id s.tables.trips ≡ some a
      → Run env s t
      → Kept id a t.tables
  Run-Kept id a l found here = (a, found, IsForward-refl a)
  Run-Kept id a l found (later r st) =
      let (b, found_b, f) = Run-Kept id a l found r in
      let (d, found_d, g) =
        Transition-Kept id b found_b (Step-Transition env (Run-IsLocked env l r) st) in
      (d, found_d, IsForward-trans f g)

  -- Once the committed row of a trip says that it is published, no session that has locked the trip
  -- to publish it, before or after, comes to a commit: a trip is published once.
  pub published_once :
      {s t : System} (a : Trip) (j : ℕ) (ctx : Context) (command : TripCommand) (trip : Trip)
      (w w' : World) {k : Uuid}
      → IsLocked s
      → find_trip command.trip_id s.tables.trips ≡ some a
      → 1 ≤ rank a.status
      → Run env s t
      → t.session j ≡ publishing ctx command trip
      → w.tables ≡ t.tables
      → ¬ (publish_locked env ctx command trip w ≡ (ok k, w'))
  published_once {s} {t} a j ctx command trip w w' {k} l found past r at_j same done =
      let (b, found_b, f) = Run-Kept command.trip_id a l found r in
      let now =
        (Run-IsLocked env l r).current j command.trip_id trip (ground arith) (ground arith) in
      let row : find_trip command.trip_id w.tables.trips ≡ some trip =
        ap (λ (u : Tables). find_trip command.trip_id u.trips) same ∙ now in
      let p = publish_locked-IsPublished env ctx command trip w w' {id = k} row done in
      let found_p = p.found in let is_draft = p.is_draft in let up = f.no_less in ground arith
