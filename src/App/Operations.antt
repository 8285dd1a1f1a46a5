-- ===== src/App/Operations.antt =====
-- What the operations of the service leave of the HTTP metrics.
use share_trip.Base.{◌≡◌, ap, inl, inr, arith, Option-cases, Bool-cases}
use share_trip.Result.{Result-cases}
use share_trip.Metrics.{Vec, Metrics}
use share_trip.Context.{Context}
use share_trip.Domain.{Uuid}
use share_trip.Domain.Usecase
use share_trip.Domain.Usecase.{publish_checked, may_publish, trip_published, outbox_event, draft_of}
use share_trip.World.{World, next}
use share_trip.Env.{Env}
use share_trip.Service.Trips.{
  TripCommand, create_trip, publish_trip, start_trip, get_trip_by_id, start_block,
}
use share_trip.Service.Validate.{CreateTripCommand, validate_create_trip_command}
use share_trip.Service.Frame.{
  tx-Keeps, get_trip_by_id-Keeps, publish_block-Keeps, start_block-Keeps, create_block-Keeps,
}
use share_trip.Service.Transaction.{tx}
use share_trip.Service.Publishing.Outcome.{block, checked}
use share_trip.Service.Creating.{request as create_request}
use share_trip.Service.Starting.{start_checked}
use share_trip.Contract.{check_service}
use share_trip.Middleware.Keycloak.{}
use share_trip.Api.Routes.{}
use share_trip.Wiring.{trip_service}

-- The counter and the histogram of requests.
abbrev pub http : World → Vec × Vec
http w = (w.metrics.http_request_total, w.metrics.http_request_duration)

abbrev http_of : Metrics → Vec × Vec
http_of m = (m.http_request_total, m.http_request_duration)

module _ (env : Env) where
  pub create_trip-http :
      (command : CreateTripCommand) (w : World)
      → http (create_trip env (trip_service env) command w).1 ≡ http w
  unfolding create_trip
  create_trip-http command w =
      let inner =
        Usecase.create_trip (trip_service env).trip_usecase (create_request env command) in
      let a =
        ap http_of
          (tx-Keeps env inner (create_block-Keeps env (create_request env command)) (next w)) in
      elim (Option-cases (validate_create_trip_command (env.now w.tick) command)) [
        | inr (e, h) ↦ ground arith
        | inl h ↦ elim (Result-cases (tx env inner (next w)).0) [
          | inl (trip, f) ↦ ground arith
          | inr (x, f) ↦ ground arith
        ]
      ]

  pub get_trip_by_id-http :
      (id : Uuid) (w : World) → http (get_trip_by_id env (trip_service env) id w).1 ≡ http w
  unfolding get_trip_by_id
  get_trip_by_id-http id w = ap http_of (get_trip_by_id-Keeps env id w)

  module _ (ctx : Context) (command : TripCommand) (w : World) where
    pub publish_trip-http : http (publish_trip env (trip_service env) ctx command w).1 ≡ http w
    unfolding publish_trip check_service
    publish_trip-http =
        let (r, w₁) = checked env ctx command w in
        let a =
          ap http_of
            (tx-Keeps env (block env ctx command) (publish_block-Keeps env ctx command) w₁) in
        elim (Result-cases r) [
          | inr (x, e) ↦ ground arith
          | inl (permission, e) ↦ elim (Bool-cases permission.allowed) [
            | inr denied ↦ ground arith
            | inl granted ↦ elim (Result-cases (tx env (block env ctx command) w₁).0) [
              | inl (id, f) ↦ ground arith
              | inr (x, f) ↦ ground arith
            ]
          ]
        ]

    pub start_trip-http : http (start_trip env (trip_service env) ctx command w).1 ≡ http w
    unfolding start_trip check_service
    start_trip-http =
        let (r, w₁) = start_checked env ctx command w in
        let inner = start_block env (trip_service env) command in
        let a = ap http_of (tx-Keeps env inner (start_block-Keeps env command) w₁) in
        elim (Result-cases r) [
          | inr (x, e) ↦ ground arith
          | inl (permission, e) ↦ elim (Bool-cases permission.allowed) [
            | inr denied ↦ ground arith
            | inl granted ↦ elim (Result-cases (tx env inner w₁).0) [
              | inl (id, f) ↦ ground arith
              | inr (x, f) ↦ ground arith
            ]
          ]
        ]
