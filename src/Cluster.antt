-- ===== src/Cluster.antt =====
-- The service as it is deployed: any number of processes on one database and one topic. Requests make
-- the steps of Concurrent.antt and publishers those of Events/Publishers.antt, in any order, each
-- seeing what the others have committed.
pub mod Stores
pub mod Invariant
pub mod Announced
pub mod Eventually
pub mod Refinement
use share_trip.Base.{ℕ, List, []}
use share_trip.Env.{Env}
use share_trip.World.{Tables, Message}
use share_trip.System.{Call, create, get, publish, start, batch, empty_tables}
use share_trip.Concurrent.{
  Session, idle, System, lock_to_publish, lock_to_start, commit_publish, commit_start, roll_back,
  other_call,
}
use share_trip.Concurrent as Requests
use share_trip.Events.Publishers.{Publisher, resting, Queue, lock, turn, give_up, commit, insert}
use share_trip.Events.Publishers as Publishers

pub record Cluster : Type 0 where
  pub tables : Tables
  pub topic : List Message
  pub session : ℕ → Session
  pub publisher : ℕ → Publisher

-- What the requests see of it, and what the publishers see.
abbrev pub requests : Cluster → System
requests c = record { tables = c.tables; session = c.session }

abbrev pub queue : Cluster → Queue
queue c = record { outbox = c.tables.outbox; topic = c.topic; publisher = c.publisher }

abbrev pub IsNoBatch : Call → Type 0
IsNoBatch batch = ⊥
IsNoBatch _ = Unit

module _ (env : Env) where
  -- A request's step; the batches are the publishers'.
  abbrev pub IsRequest : {s t : System} → Requests.Step env s t → Type 0
  IsRequest (lock_to_publish i ctx command trip w w' e free same got) = Unit
  IsRequest (lock_to_start i command trip w w' e free same got) = Unit
  IsRequest (commit_publish i ctx command trip id w w' e same done) = Unit
  IsRequest (commit_start i command trip new w w' e same done) = Unit
  IsRequest (roll_back i) = Unit
  IsRequest (other_call c w free same) = IsNoBatch c

  -- A publisher's step; the insertions are the requests'.
  abbrev pub IsDelivery : {s t : Queue} → Publishers.Step env s t → Type 0
  IsDelivery (lock i free es w w' e skips seen got) = Unit
  IsDelivery (turn i e es todo marks w w' at_i rows topic done) = Unit
  IsDelivery (give_up i e es todo marks x w w' at_i rows topic done) = Unit
  IsDelivery (commit i es marks at_i) = Unit
  IsDelivery (Publishers.roll_back i) = Unit
  IsDelivery (insert event w w' same done) = ⊥

  pub data Step (c : Cluster) : Cluster → Type 0 where
    request :
        (s : System) (st : Requests.Step env (requests c) s)
        → IsRequest st
        → Step c (record c { tables = s.tables; session = s.session })
    delivery :
        (q : Queue) (st : Publishers.Step env (queue c) q)
        → IsDelivery st
        → Step c (record {
          tables = record c.tables { outbox = q.outbox };
          topic = q.topic;
          session = c.session;
          publisher = q.publisher;
        })

  pub data Run (c : Cluster) : Cluster → Type 0 where
    here : Run c c
    later : {d e : Cluster} → Run c d → Step d e → Run c e

-- Nothing has happened yet.
abbrev pub fresh : Cluster
fresh = record { tables = empty_tables; topic = []; session = λ i. idle; publisher = λ i. resting }
