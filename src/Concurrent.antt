-- ===== src/Concurrent.antt =====
-- Requests that run at the same time: transactions of service/publish_trip.go and start_trip.go, cut
-- at the row lock that `SELECT … FOR UPDATE` takes (get_trip_for_update_by_id.go). A session waits
-- while another holds the row; from the lock to the end of its transaction nobody sees what it
-- writes, and nobody else writes the row. So it makes two steps: it reads the row under the lock,
-- and it runs the rest of its block and commits, or rolls back. What a request does before its
-- transaction, the contract's check, is left out, so that there are more runs than requests have.
pub mod Rows
pub mod Locking
pub mod Refinement
use share_trip.Base.{ℕ, ◌≡◌, ◌≢◌, refl, ite, Option, none, some, at}
use share_trip.Result.{Result, ok}
use share_trip.Context.{Context, with_trip_id}
use share_trip.Domain.{Uuid, Trip, start}
use share_trip.Domain.Usecase
use share_trip.Domain.Usecase.{may_publish, publish_checked}
use share_trip.World.{World, Tables, Action, ◌>>=◌, ◌>>◌, lift, annotate}
use share_trip.Env.{Env}
use share_trip.Repository.Trips
use share_trip.Service.Trips.{TripCommand, start_block}
use share_trip.Service.Publishing.Outcome.{request, block}
use share_trip.Service.Starting.{start_locked}
use share_trip.System.{Call, create, get, publish, start as start_call, batch, perform}
use share_trip.Wiring.{trip_service}

-- Where a request stands: outside a transaction, or with the lock of its trip and the row it read.
pub data Session : Type 0 where
  idle : Session
  publishing : Context → TripCommand → Trip → Session
  starting : TripCommand → Trip → Session

abbrev pub locked : Session → Option Uuid
locked idle = none
locked (publishing ctx command trip) = some command.trip_id
locked (starting command trip) = some command.trip_id

-- The committed tables, and the requests by their numbers.
pub record System : Type 0 where
  pub tables : Tables
  pub session : ℕ → Session

-- No session holds the row.
abbrev pub IsFree : Uuid → System → Type 0
IsFree id s = (j : ℕ) → locked (s.session j) ≢ some id

-- A call that takes no lock on a trip.
abbrev pub IsLockFree : Call → Type 0
IsLockFree (publish ctx command) = ⊥
IsLockFree (start_call ctx command) = ⊥
IsLockFree _ = Unit

module _ (env : Env) where
  -- `PublishTrip`'s block behind the lock.
  abbrev pub publish_locked : Context → TripCommand → Trip → Action Uuid
  publish_locked ctx command trip =
      let ctx' = with_trip_id ctx (env.uuid_text command.trip_id) in
      lift (may_publish env (request command) trip)
      >> publish_checked env (trip_service env).trip_usecase ctx' (request command) trip

  -- The two pieces are the block.
  publish_block-eq-pieces :
      (ctx : Context) (command : TripCommand)
      → block env ctx command ≡ (
          annotate "tripRepo.GetForUpdateByID" (Trips.get_for_update_by_id env command.trip_id)
          >>= publish_locked ctx command)
  unfolding Usecase.publish_trip
  publish_block-eq-pieces ctx command = refl

  start_block-eq-pieces :
      (command : TripCommand)
      → start_block env (trip_service env) command
        ≡ (Trips.get_for_update_by_id env command.trip_id >>= start_locked env command)
  unfolding start_block
  start_block-eq-pieces command = refl

  -- One step of one session. The world of an action has the committed tables; clock, metrics and the
  -- rest of it are as they may be.
  pub data Step (s : System) : System → Type 0 where
    lock_to_publish :
        (i : ℕ) (ctx : Context) (command : TripCommand) (trip : Trip) (w w' : World)
        → s.session i ≡ idle
        → IsFree command.trip_id s
        → w.tables ≡ s.tables
        → Trips.get_for_update_by_id env command.trip_id w ≡ (ok trip, w')
        → Step s (record s { session = at s.session i (publishing ctx command trip) })
    lock_to_start :
        (i : ℕ) (command : TripCommand) (trip : Trip) (w w' : World)
        → s.session i ≡ idle
        → IsFree command.trip_id s
        → w.tables ≡ s.tables
        → Trips.get_for_update_by_id env command.trip_id w ≡ (ok trip, w')
        → Step s (record s { session = at s.session i (starting command trip) })
    commit_publish :
        (i : ℕ) (ctx : Context) (command : TripCommand) (trip : Trip) (id : Uuid) (w w' : World)
        → s.session i ≡ publishing ctx command trip
        → w.tables ≡ s.tables
        → publish_locked ctx command trip w ≡ (ok id, w')
        → Step s (record { tables = w'.tables; session = at s.session i idle })
    commit_start :
        (i : ℕ) (command : TripCommand) (trip new : Trip) (w w' : World)
        → s.session i ≡ starting command trip
        → w.tables ≡ s.tables
        → start_locked env command trip w ≡ (ok new, w')
        → Step s (record { tables = w'.tables; session = at s.session i idle })
    roll_back : (i : ℕ) → Step s (record s { session = at s.session i idle })
    other_call :
        (c : Call) (w : World)
        → IsLockFree c
        → w.tables ≡ s.tables
        → Step s (record s { tables = (perform env c w).tables })

  pub data Run (s : System) : System → Type 0 where
    here : Run s s
    later : {t u : System} → Run s t → Step t u → Run s u

-- No requests, on any tables.
abbrev pub quiet : Tables → System
quiet t = record { tables = t; session = λ i. idle }
