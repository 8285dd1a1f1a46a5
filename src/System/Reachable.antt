-- ===== src/System/Reachable.antt =====
-- The invariant of every reachable world.
use share_trip.Base.{some, ◌≡◌, refl, ◌∙◌, inl, inr, List, arith}
use share_trip.Domain.{Uuid, Trip, OutboxEvent}
use share_trip.World.{World, Message}
use share_trip.Env.{Env}
use share_trip.Repository.Trips
use share_trip.Repository.Trips.{find_trip}
use share_trip.Repository.Outbox.{has_event}
use share_trip.Repository.Lookup.{has_event-update_event}
use share_trip.Lifecycle.Consistency.{IsConsistent, IsInjective, last_status}
use share_trip.Service.Trips.{get_trip_by_id}
use share_trip.Service.Creating.{create_trip_atomic}
use share_trip.Service.Publishing.Outcome.{publish_trip_atomic}
use share_trip.Service.Starting.{start_trip_atomic}
use share_trip.Events.Delivery.{Deliveries, finished, sent, failed, as_sent, as_failed, IsDelivered}
use share_trip.Events.Batch.{publish_batch_atomic}
use share_trip.System.{
  Call, create, get, publish, start, batch, perform, Reach, here, next, empty_tables,
}
use share_trip.Lifecycle.Transition.{
  Transition, unchanged, created, published_trip, started_trip, delivered, IsOutboxOnly, Kept,
  IsForward-refl, IsForward-trans, Transition-Kept, Transition-IsConsistent,
}
use share_trip.Wiring.{trip_service}

Deliveries-has_event :
    (env : Env) (id : Uuid) {es o o' : List OutboxEvent} {p p' : List Message}
    → Deliveries env es o o' p p'
    → has_event id o' ≡ has_event id o
Deliveries-has_event env id (finished o p) = refl
Deliveries-has_event env id (sent {o = o} e m now c d) =
    Deliveries-has_event env id d ∙ has_event-update_event id e.id (as_sent now) o (λ x. refl)
Deliveries-has_event env id (failed {o = o} e reason d) =
    Deliveries-has_event env id d ∙ has_event-update_event id e.id (as_failed reason) o (λ x. refl)

module _ (env : Env) where
  pub get_trip_by_id-tables :
      (id : Uuid) (w : World) → (get_trip_by_id env (trip_service env) id w).1.tables ≡ w.tables
  unfolding get_trip_by_id Trips.get_trip_by_id
  get_trip_by_id-tables id w = ground arith

  pub empty-IsConsistent : IsConsistent env empty_tables
  unfolding last_status find_trip has_event
  empty-IsConsistent = record {
    at = λ id. record { tracked = refl; announced = refl };
    chained = tt;
  }

  Delivered-IsOutboxOnly :
      {es : List OutboxEvent} (w w' : World)
      → IsDelivered env es w w'
      → IsOutboxOnly w.tables w'.tables
  Delivered-IsOutboxOnly w w' (d, t) = record {
    others = t;
    same_events = λ id. Deliveries-has_event env id d;
  }

  -- Every call makes one transition of the specification, or none, whatever the services around it
  -- do.
  pub perform-Transition : (c : Call) (w : World) → Transition env w.tables (perform env c w).tables
  perform-Transition (create command) w = elim (create_trip_atomic env command w) [
    | inl same ↦ unchanged same
    | inr (trip, c, driver) ↦ created trip c
  ]
  perform-Transition (get id) w = unchanged (get_trip_by_id-tables id w)
  perform-Transition (publish ctx command) w = elim (publish_trip_atomic env ctx command w) [
    | inl same ↦ unchanged same
    | inr p ↦ published_trip p
  ]
  perform-Transition (start ctx command) w = elim (start_trip_atomic env ctx command w) [
    | inl same ↦ unchanged same
    | inr p ↦ started_trip p
  ]
  perform-Transition batch w = elim (publish_batch_atomic env w) [
    | inl same ↦ unchanged same
    | inr d ↦ delivered (Delivered-IsOutboxOnly w (perform env batch w) d)
  ]

  -- Over any run a trip keeps its id, its driver and its seats, and its status never goes back.
  pub Reach-Kept :
      {v w : World} (id : Uuid) (a : Trip)
      → find_trip id v.tables.trips ≡ some a
      → Reach env v w
      → Kept id a w.tables
  Reach-Kept id a found here = (a, found, IsForward-refl a)
  Reach-Kept id a found (next {v = u} r c) =
      let (b, found_b, f) = Reach-Kept id a found r in
      let (d, found_d, g) = Transition-Kept id b found_b (perform-Transition c u) in
      (d, found_d, IsForward-trans f g)

module _ (env : Env) (injective : IsInjective env) where
  -- If event ids tell trips apart, then in every world that a run reaches from empty tables the
  -- history tells the status of every trip step by step, and a trip has its event in the outbox
  -- exactly when it is published or started.
  pub Reach-IsConsistent :
      {v w : World} → v.tables ≡ empty_tables → Reach env v w → IsConsistent env w.tables
  Reach-IsConsistent e here = rw e (empty-IsConsistent env)
  Reach-IsConsistent e (next {v = u} r c) =
      Transition-IsConsistent injective (perform-Transition env c u) (Reach-IsConsistent e r)
