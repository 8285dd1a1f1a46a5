-- ===== src/System.antt =====
-- The running service: requests and publisher ticks in any order, over any behaviour of the outside
-- parties. A run is a sequence of whole calls; Concurrent.antt has the requests that overlap.
pub mod Reachable
use share_trip.Base.{List, []}
use share_trip.Context.{Context}
use share_trip.Domain.{Uuid}
use share_trip.World.{World, Tables}
use share_trip.Env.{Env}
use share_trip.Service.Trips.{TripCommand, create_trip, get_trip_by_id, publish_trip, start_trip}
use share_trip.Service.Validate.{CreateTripCommand}
use share_trip.Events.{producer, publish_batch}
use share_trip.Wiring.{trip_service, outbox_queue}

pub data Call : Type 0 where
  create : CreateTripCommand → Call
  get : Uuid → Call
  publish : Context → TripCommand → Call
  start : Context → TripCommand → Call
  batch : Call

abbrev pub perform : Env → Call → World → World
perform env (create command) w = (create_trip env (trip_service env) command w).1
perform env (get id) w = (get_trip_by_id env (trip_service env) id w).1
perform env (publish ctx command) w = (publish_trip env (trip_service env) ctx command w).1
perform env (start ctx command) w = (start_trip env (trip_service env) ctx command w).1
perform env batch w = (publish_batch env (outbox_queue env) (producer env) w).1

pub data Reach (env : Env) (w : World) : World → Type 0 where
  here : Reach env w w
  next : {v : World} → Reach env w v → (c : Call) → Reach env w (perform env c v)

-- The tables as the migrations leave them.
abbrev pub empty_tables : Tables
empty_tables = record { trips = []; history = []; outbox = [] }
