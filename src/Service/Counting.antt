-- ===== src/Service/Counting.antt =====
-- The metrics of `PublishTrip`.
use share_trip.Base.{ap, ◌≡◌, refl, inl, inr, [], ◌∷◌, arith, Bool-cases}
use share_trip.Result.{Result, Result-cases}
use share_trip.Metrics.{Metrics}
use share_trip.Context.{Context}
use share_trip.Domain.{Uuid}
use share_trip.World.{World}
use share_trip.Env.{Env}
use share_trip.Service.Trips.{TripCommand, publish_trip, publish_trip_result}
use share_trip.Service.Transaction.{tx}
use share_trip.Service.Publishing.Outcome.{block, checked}
use share_trip.Service.Publishing.Decision.{label}
use share_trip.Contract.{check_service}
use share_trip.Wiring.{trip_service}
use share_trip.Service.Frame.{tx-Keeps, publish_block-Keeps}

module _ (env : Env) where
  module _ (ctx : Context) (command : TripCommand) (w : World) where
    abbrev call : Result Uuid × World
    call = publish_trip env (trip_service env) ctx command w

    abbrev transaction : Result Uuid × World
    transaction = tx env (block env ctx command) (checked env ctx command w).1

    transaction-counts :
        (transaction.1.metrics.trip_publish_total ≡ w.metrics.trip_publish_total)
        × (transaction.1.metrics.trip_publish_duration ≡ w.metrics.trip_publish_duration)
    unfolding check_service
    transaction-counts =
        let same =
          tx-Keeps env (block env ctx command) (publish_block-Keeps env ctx command)
            (checked env ctx command w).1 in
        (
          ap (λ (m : Metrics). m.trip_publish_total) same,
          ap (λ (m : Metrics). m.trip_publish_duration) same,
        )

    checked-counts :
        ((checked env ctx command w).1.metrics.trip_publish_total ≡ w.metrics.trip_publish_total)
        × ((checked env ctx command w).1.metrics.trip_publish_duration
            ≡ w.metrics.trip_publish_duration)
    unfolding check_service
    checked-counts = (refl, refl)

    -- A call of `PublishTrip` adds one increment and one observation, both under the label of what it
    -- returns.
    pub publish_trip_counted :
        (call.1.metrics.trip_publish_total ≡ (label call.0 ∷ []) ∷ w.metrics.trip_publish_total)
        × (call.1.metrics.trip_publish_duration
            ≡ (label call.0 ∷ []) ∷ w.metrics.trip_publish_duration)
    unfolding publish_trip publish_trip_result
    publish_trip_counted =
        let (a, d) = checked-counts in
        let (b, c) = transaction-counts in
        elim (Result-cases (checked env ctx command w).0) [
          | inr (x, e) ↦ (ground arith, ground arith)
          | inl (permission, e) ↦ elim (Bool-cases permission.allowed) [
            | inr denied ↦ (ground arith, ground arith)
            | inl granted ↦ elim (Result-cases transaction.0) [
              | inl (id, f) ↦ (ground arith, ground arith)
              | inr (x, f) ↦ (ground arith, ground arith)
            ]
          ]
        ]
