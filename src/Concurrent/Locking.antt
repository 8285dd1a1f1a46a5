-- ===== src/Concurrent/Locking.antt =====
-- The locks: exclusion, and rows that stay as they were read.
use share_trip.Base.{
  at, ℕ, ◌≡◌, ◌≢◌, refl, sym, ap, ◌∙◌, Option, none, some, arith, Bool-cases, inl, inr, ◌==◌,
}
use share_trip.Result.{ok}
use share_trip.Context.{Context, causes}
use share_trip.Domain.{Uuid, Trip}
use share_trip.World.{World, Tables}
use share_trip.Env.{Env}
use share_trip.Repository.Trips
use share_trip.Repository.Trips.{find_trip}
use share_trip.Repository.Effects.{get_for_update_by_id-eq-ok}
use share_trip.Lifecycle.Changes.{IsPublished, IsStarted}
use share_trip.Lifecycle.Transition.{Transition, unchanged, published_trip, started_trip}
use share_trip.Service.Trips.{TripCommand}
use share_trip.Service.Starting.{start_locked, start_locked-IsStarted}
use share_trip.System.{perform}
use share_trip.System.Reachable.{perform-Transition}
use share_trip.Concurrent.{
  Session, idle, publishing, starting, locked, System, IsFree, publish_locked, Step,
  lock_to_publish, lock_to_start, commit_publish, commit_start, roll_back, other_call, Run, here,
  later, quiet,
}
use share_trip.Concurrent.Rows.{
  publish_locked-IsPublished, IsPublished-others, IsStarted-others, other_call-row,
}
use share_trip.Base.{subst}

-- The row that a session has read.
abbrev pub row_read : Session → Option Trip
row_read idle = none
row_read (publishing ctx command trip) = some trip
row_read (starting command trip) = some trip

pub record IsLocked (s : System) : Type 0 where
  pub exclusive :
      (i j : ℕ) (id : Uuid)
      → locked (s.session i) ≡ some id
      → locked (s.session j) ≡ some id
      → i ≡ j
  pub current :
      (i : ℕ) (id : Uuid) (trip : Trip)
      → locked (s.session i) ≡ some id
      → row_read (s.session i) ≡ some trip
      → find_trip id s.tables.trips ≡ some trip

module _ (env : Env) where
  -- A lock is taken by a session that has read the committed row.
  locking :
      (s : System) (i : ℕ) (x : Session) (key : Uuid) (trip : Trip)
      → IsLocked s
      → IsFree key s
      → locked x ≡ some key
      → row_read x ≡ some trip
      → find_trip key s.tables.trips ≡ some trip
      → IsLocked (record s { session = at s.session i x })
  locking s i x key trip l free has_key has_row found = record {
    exclusive = λ a b id p q. ground (arith, l.exclusive a b id, free a, free b);
    current = λ a id row p q. ground (arith, l.current a id row);
  }

  -- A session that ends gives its lock back, where the rows of the others are as they were.
  ending :
      (s : System) (i : ℕ) (u : Tables)
      → IsLocked s
      → ((j : ℕ) (id : Uuid) (a : Trip)
          → i ≢ j
          → locked (s.session j) ≡ some id
          → find_trip id s.tables.trips ≡ some a
          → find_trip id u.trips ≡ some a)
      → IsLocked (record { tables = u; session = at s.session i idle })
  ending s i u l kept = record {
    exclusive = λ a b id p q. ground (arith, l.exclusive a b id);
    current = λ a id row p q. elim (Bool-cases (i == a)) [
      | inl ended ↦ absurd (ground arith)
      | inr other ↦
          let held : locked (s.session a) ≡ some id = ground arith in
          let read : row_read (s.session a) ≡ some row = ground arith in
          kept a id row (ground arith) held (l.current a id row held read)
    ];
  }

  -- What a commit does, on the tables that are committed by then.
  pub commit_publish-IsPublished :
      (s : System) (i : ℕ) (ctx : Context) (command : TripCommand) (trip : Trip) (id : Uuid)
      (w w' : World)
      → IsLocked s
      → s.session i ≡ publishing ctx command trip
      → w.tables ≡ s.tables
      → publish_locked env ctx command trip w ≡ (ok id, w')
      → IsPublished env (causes ctx) command.trip_id command.client_id s.tables w'.tables
  commit_publish-IsPublished s i ctx command trip id w w' l at_i same done =
      let found = l.current i command.trip_id trip (ground arith) (ground arith) in
      let row : find_trip command.trip_id w.tables.trips ≡ some trip =
        ap (λ (t : Tables). find_trip command.trip_id t.trips) same ∙ found in
      rw same at (publish_locked-IsPublished env ctx command trip w w' {id = id} row done)

  pub commit_start-IsStarted :
      (s : System) (i : ℕ) (command : TripCommand) (trip new : Trip) (w w' : World)
      → IsLocked s
      → s.session i ≡ starting command trip
      → w.tables ≡ s.tables
      → start_locked env command trip w ≡ (ok new, w')
      → IsStarted command.trip_id command.client_id s.tables w'.tables
  commit_start-IsStarted s i command trip new w w' l at_i same done =
      let found = l.current i command.trip_id trip (ground arith) (ground arith) in
      let row : find_trip command.trip_id w.tables.trips ≡ some trip =
        ap (λ (t : Tables). find_trip command.trip_id t.trips) same ∙ found in
      rw same at (start_locked-IsStarted env command w w' trip {trip = new} row done).0

  -- Every step of an interleaving makes one transition of the specification, or none.
  pub Step-Transition :
      {s t : System} → IsLocked s → Step env s t → Transition env s.tables t.tables
  Step-Transition l (lock_to_publish i ctx command trip w w' e free same got) = unchanged refl
  Step-Transition l (lock_to_start i command trip w w' e free same got) = unchanged refl
  Step-Transition {s} l (commit_publish i ctx command trip id w w' e same done) =
      published_trip (commit_publish-IsPublished s i ctx command trip id w w' l e same done)
  Step-Transition {s} l (commit_start i command trip new w w' e same done) =
      started_trip (commit_start-IsStarted s i command trip new w w' l e same done)
  Step-Transition l (roll_back i) = unchanged refl
  Step-Transition l (other_call c w free same) =
      subst (λ (t : Tables). Transition env t (perform env c w).tables) same
        (perform-Transition env c w)

  read-found :
      (s : System) (key : Uuid) (w w' : World) {trip : Trip}
      → w.tables ≡ s.tables
      → Trips.get_for_update_by_id env key w ≡ (ok trip, w')
      → find_trip key s.tables.trips ≡ some trip
  read-found s key w w' same got =
      ap (λ (t : Tables). find_trip key t.trips) (sym same)
      ∙ (get_for_update_by_id-eq-ok env w w' key got).0

  pub Step-IsLocked : {s t : System} → Step env s t → IsLocked s → IsLocked t
  Step-IsLocked {s} (lock_to_publish i ctx command trip w w' e free same got) l =
      locking s i (publishing ctx command trip) command.trip_id trip l free refl refl
        (read-found s command.trip_id w w' same got)
  Step-IsLocked {s} (lock_to_start i command trip w w' e free same got) l =
      locking s i (starting command trip) command.trip_id trip l free refl refl
        (read-found s command.trip_id w w' same got)
  Step-IsLocked {s} (commit_publish i ctx command trip id w w' e same done) l =
      let p = commit_publish-IsPublished s i ctx command trip id w w' l e same done in
      ending s i w'.tables l (λ j key a ne held found.
        let other : key ≢ command.trip_id = λ q. ne (l.exclusive i j key (ground arith) held) in
        IsPublished-others key p other ∙ found)
  Step-IsLocked {s} (commit_start i command trip new w w' e same done) l =
      let p = commit_start-IsStarted s i command trip new w w' l e same done in
      ending s i w'.tables l (λ j key a ne held found.
        let other : key ≢ command.trip_id = λ q. ne (l.exclusive i j key (ground arith) held) in
        IsStarted-others key p other ∙ found)
  Step-IsLocked {s} (roll_back i) l = ending s i s.tables l (λ j key a ne held found. found)
  Step-IsLocked {s} (other_call c w free same) l = record {
    exclusive = l.exclusive;
    current = λ i id trip held read.
        other_call-row env c w id trip free
          (ap (λ (t : Tables). find_trip id t.trips) same ∙ l.current i id trip held read);
  }

  -- However requests interleave, no two sessions hold the lock of one trip, and the row that a
  -- session has read is the committed one until the session ends.
  pub Run-IsLocked : {s t : System} → IsLocked s → Run env s t → IsLocked t
  Run-IsLocked l here = l
  Run-IsLocked l (later r st) = Step-IsLocked st (Run-IsLocked l r)

pub quiet-IsLocked : (t : Tables) → IsLocked (quiet t)
quiet-IsLocked t = record {
  exclusive = λ i j id p q. absurd (ground arith);
  current = λ i id trip p q. absurd (ground arith);
}
