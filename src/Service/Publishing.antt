-- ===== src/Service/Publishing.antt =====
-- `PublishTrip` against the lifecycle.
pub mod Outcome
pub mod Decision
use share_trip.Base.{
  ℕ, String, Bool, true, false, ◌≡◌, refl, sym, ◌∙◌, ◌⊎◌, inl, inr, none, some, List, [], ◌∷◌,
  arith, Option-cases, Bool-cases, ◌==◌, if◌then◌else◌,
}
use share_trip.Result.{Result, ok, err, Result-cases}
use share_trip.Context.{causes, Context, with_trip_id}
use share_trip.Domain.{
  Uuid, TripStatus-discrete, draft, published, Trip, OutboxEvent, event_type_trip_published,
  PublishTripRequest,
}
use share_trip.Domain.Usecase
use share_trip.Domain.Usecase.{
  may_publish, publish_checked, trip_published, outbox_event, new_event_id,
}
use share_trip.World.{World, Tables, Action, annotate, lift, ◌>>=◌, ◌>>◌, pure, next}
use share_trip.Env.{Env, current_time}
use share_trip.Repository.Trips.{find_trip}
use share_trip.Repository.Trips
use share_trip.Repository.Outbox
use share_trip.Repository.Effects.{
  find_trip-id, get_for_update_by_id-eq-ok, update-eq-ok, create_outbox_event-eq-ok,
}
use share_trip.Repository.Outbox.{pending_row}
use share_trip.Lifecycle.Changes.{IsPublished}
use share_trip.Contract.{check_service}
use share_trip.Service.Trips.{TripCommand, CheckResult, publish_trip}
use share_trip.Service.Transaction.{tx, begun}
use share_trip.Service.Atomic.{transact-eq-ok, transact_atomic}
use share_trip.Wiring.{trip_service}

pub may_publish-eq-ok :
    (env : Env) (req : PublishTripRequest) (trip : Trip) {x : Unit {0}}
    → may_publish env req trip ≡ ok x
    → (trip.driver_id ≡ req.client_id) × (trip.status ≡ draft)
unfolding may_publish TripStatus-discrete
may_publish-eq-ok env req trip h = ground arith

module _ (env : Env) (ctx : Context) (req : PublishTripRequest) (w w' : World) where
  pub publish_checked-eq-ok :
      (trip : Trip) {id : Uuid}
      → find_trip req.trip_id w.tables.trips ≡ some trip
      → trip.driver_id ≡ req.client_id
      → trip.status ≡ draft
      → publish_checked env (trip_service env).trip_usecase ctx req trip w ≡ (ok id, w')
      → IsPublished env (causes ctx) req.trip_id req.client_id w.tables w'.tables
        × (id ≡ req.trip_id)
  unfolding publish_checked trip_published outbox_event pending_row Trips.record_change
      TripStatus-discrete
  publish_checked-eq-ok trip {id} found driver is_draft h =
      let (r₁, w₁) = Trips.update env (record trip { status = published }) w in
      elim (Result-cases r₁) [
        | inr (x, e) ↦ absurd (ground arith)
        | inl (new, e) ↦
            let (old, found', is_new, t₁) =
              update-eq-ok env w w₁ (record trip { status = published }) (λ i. (e i, w₁)) in
            let payload = env.marshal_event (trip_published env ctx req new (env.now w₁.tick)) in
            elim (Result-cases payload) [
              | inr (x, f) ↦ absurd (ground arith)
              | inl (text, f) ↦
                  let event = outbox_event env new text in
                  let (r₃, w₃) = Outbox.create_outbox_event env event (next w₁) in
                  elim (Result-cases r₃) [
                    | inr (x, g) ↦ absurd (ground arith)
                    | inl (x, g) ↦
                        let t₃ =
                          create_outbox_event-eq-ok env (next w₁) w₃ event (λ i. (g i, w₃)) in
                        let same : trip.id ≡ req.trip_id = find_trip-id _ _ found in
                        let same_old : old ≡ trip = ground (arith) in
                        let row = pending_row event w₁.tx_time in
                        (
                          record {
                            trip = trip;
                            now = w.tx_time;
                            message = trip_published env ctx req new (env.now w₁.tick);
                            event = row;
                            found = found;
                            is_draft = is_draft;
                            by_driver = driver;
                            event_id = ground arith;
                            is_pending = ground arith;
                            encoded = ground arith;
                            about_trip = ground arith;
                            same_id = ground arith;
                            correlated = ground arith;
                            caused = ground arith;
                            about_driver = ground arith;
                            after = ground arith;
                          },
                          ground arith,
                        )
                  ]
            ]
      ]

  pub publish_trip-eq-ok :
      {id : Uuid}
      → Usecase.publish_trip env (trip_service env).trip_usecase ctx req w ≡ (ok id, w')
      → (trip : Trip) × (w₁ : World) × (w₁.tables ≡ w.tables)
        × (find_trip req.trip_id w₁.tables.trips ≡ some trip)
        × (trip.driver_id ≡ req.client_id)
        × (trip.status ≡ draft)
        × (publish_checked env (trip_service env).trip_usecase ctx req trip w₁ ≡ (ok id, w'))
  unfolding Usecase.publish_trip
  publish_trip-eq-ok {id} h =
      let (r₁, w₁) = Trips.get_for_update_by_id env req.trip_id w in
      elim (Result-cases r₁) [
        | inr (x, e) ↦ absurd (ground arith)
        | inl (trip, e) ↦ elim (Result-cases (may_publish env req trip)) [
          | inr (x, e₂) ↦ absurd (ground arith)
          | inl (x, e₂) ↦
              let read = get_for_update_by_id-eq-ok env w w₁ req.trip_id (λ i. (e i, w₁)) in
              let checked = may_publish-eq-ok env req trip e₂ in
              (trip, w₁, read.1, ground arith, checked.0, checked.1, ground arith)
        ]
      ]
