-- ===== src/Cluster/Stores.antt =====
-- What a request's step does to the outbox.
use share_trip.Base.{String, refl, subst, ◌≡◌, ap, ◌⊎◌, inl, inr, true, str_eq}
use share_trip.Result.{ok}
use share_trip.Domain.{Uuid, TripPublished, OutboxEvent, event_type_trip_published}
use share_trip.World.{World, Tables}
use share_trip.Env.{Env}
use share_trip.Domain.Usecase.{new_event_id}
use share_trip.Repository.Outbox.{is_pending, put_event, status_pending}
use share_trip.Lifecycle.Changes.{IsPublished}
use share_trip.Service.Creating.{create_trip_atomic}
use share_trip.System.{Call, create, get, publish, start, batch, perform}
use share_trip.System.Reachable.{get_trip_by_id-tables}
use share_trip.Concurrent.{
  System, IsLockFree, Step, lock_to_publish, lock_to_start, commit_publish, commit_start, roll_back,
  other_call,
}
use share_trip.Concurrent.Locking.{IsLocked, commit_publish-IsPublished, commit_start-IsStarted}
use share_trip.Cluster.{IsNoBatch, IsRequest}

-- The event is a trip's, and its payload the message about this trip.
pub record Addressed (env : Env) (e : OutboxEvent) : Type 0 where
  pub trip_id : Uuid
  pub message : TripPublished
  pub event_id : e.id ≡ new_event_id env trip_id event_type_trip_published
  pub encoded : env.marshal_event message ≡ ok e.payload
  pub about_trip : message.trip_id ≡ env.uuid_text trip_id
  pub same_id : message.event_id ≡ env.uuid_text e.id

-- The outbox is as before, or has one event more.
abbrev pub IsStored : Env → (t u : Tables) → Type 0
IsStored env t u =
    (u.outbox ≡ t.outbox)
    ⊎ ((e : OutboxEvent) × (is_pending e ≡ true)
        × Addressed env e
        × (u.outbox ≡ put_event e t.outbox))

module _ (env : Env) where
  IsPublished-IsStored :
      {from : String × String} {trip_id client_id : Uuid} {t u : Tables}
      → IsPublished env from trip_id client_id t u
      → IsStored env t u
  IsPublished-IsStored {trip_id = trip_id} p =
      let addressed : Addressed env p.event = record {
        trip_id = trip_id;
        message = p.message;
        event_id = p.event_id;
        encoded = p.encoded;
        about_trip = p.about_trip;
        same_id = p.same_id;
      } in
      inr (
        p.event,
        ap (λ s. str_eq s status_pending) p.is_pending,
        addressed,
        ap (λ (u : Tables). u.outbox) p.after,
      )

  other_call-IsStored :
      (c : Call) (w : World)
      → IsLockFree c
      → IsNoBatch c
      → IsStored env w.tables (perform env c w).tables
  other_call-IsStored (create command) w free n = elim (create_trip_atomic env command w) [
    | inl same ↦ inl (ap (λ (u : Tables). u.outbox) same)
    | inr (trip, c, driver) ↦ inl (ap (λ (u : Tables). u.outbox) c.after)
  ]
  other_call-IsStored (get id) w free n =
      inl (ap (λ (u : Tables). u.outbox) (get_trip_by_id-tables env id w))
  other_call-IsStored (publish ctx command) w free n = absurd free
  other_call-IsStored (start ctx command) w free n = absurd free
  other_call-IsStored batch w free n = absurd n

  pub Step-IsStored :
      {s t : System} (st : Step env s t)
      → IsRequest env st
      → IsLocked s
      → IsStored env s.tables t.tables
  Step-IsStored (lock_to_publish i ctx command trip w w' e free same got) r l = inl refl
  Step-IsStored (lock_to_start i command trip w w' e free same got) r l = inl refl
  Step-IsStored {s} (commit_publish i ctx command trip id w w' e same done) r l =
      IsPublished-IsStored
        (commit_publish-IsPublished env s i ctx command trip id w w' l e same done)
  Step-IsStored {s} (commit_start i command trip new w w' e same done) r l =
      let p = commit_start-IsStarted env s i command trip new w w' l e same done in
      inl (ap (λ (u : Tables). u.outbox) p.after)
  Step-IsStored (roll_back i) r l = inl refl
  Step-IsStored (other_call c w free same) r l =
      subst (λ (t : Tables). IsStored env t (perform env c w).tables) same
        (other_call-IsStored c w free r)
