-- ===== src/Service/Frame.antt =====
-- What a transaction on the repositories leaves of the metrics: all but the repository's own.
use share_trip.Base.{◌≡◌, inl, inr, [], arith, Bool-cases, ◌==◌}
use share_trip.Result.{Result-cases}
use share_trip.Metrics.{Metrics}
use share_trip.Context.{Context, with_trip_id}
use share_trip.Domain.{
  Uuid, Trip, OutboxEvent, published, start, CreateTripRequest, PublishTripRequest,
}
use share_trip.Domain.Usecase
use share_trip.Domain.Usecase.{publish_checked, may_publish, trip_published, outbox_event, draft_of}
use share_trip.World.{World, Action, next}
use share_trip.Env.{Env, current_time}
use share_trip.Repository.Trips
use share_trip.Repository.Outbox
use share_trip.Service.Trips.{TripCommand, start_block}
use share_trip.Service.Transaction.{tx, begun}
use share_trip.Service.Publishing.Outcome.{request, block}
use share_trip.Wiring.{trip_service}

-- The metrics but the repository's.
abbrev pub outside : World → Metrics
outside w = record w.metrics { repository_query_total = []; repository_query_duration = [] }

-- An action that leaves them alone.
abbrev pub Keeps : {A : Type 0} → Action A → Type 0
Keeps m = (w : World) → outside (m w).1 ≡ outside w

module _ (env : Env) where
  get_for_update_by_id-Keeps : (id : Uuid) → Keeps (Trips.get_for_update_by_id env id)
  unfolding Trips.get_for_update_by_id
  get_for_update_by_id-Keeps id w = ground arith

  pub get_trip_by_id-Keeps : (id : Uuid) → Keeps (Trips.get_trip_by_id env id)
  unfolding Trips.get_trip_by_id
  get_trip_by_id-Keeps id w = ground arith

  update-Keeps : (trip : Trip) → Keeps (Trips.update env trip)
  unfolding Trips.update
  update-Keeps trip w = ground arith

  create-Keeps : (trip : Trip) → Keeps (Trips.create env trip)
  unfolding Trips.create
  create-Keeps trip w = ground arith

  create_outbox_event-Keeps : (event : OutboxEvent) → Keeps (Outbox.create_outbox_event env event)
  unfolding Outbox.create_outbox_event
  create_outbox_event-Keeps event w = ground arith

  pub tx-Keeps : {A : Type 0} (block : Action A) → Keeps block → Keeps (tx env block)
  unfolding tx
  tx-Keeps block keeps w = elim (Result-cases (block (begun env w)).0) [
    | inl (a, e) ↦ ground (arith, keeps (begun env w))
    | inr (x, e) ↦ ground (arith, keeps (begun env w))
  ]

  publish_checked-Keeps :
      (ctx : Context) (req : PublishTripRequest) (trip : Trip)
      → Keeps (publish_checked env (trip_service env).trip_usecase ctx req trip)
  unfolding publish_checked current_time
  publish_checked-Keeps ctx req trip w =
      let (r₁, w₁) = Trips.update env (record trip { status = published }) w in
      let a = update-Keeps (record trip { status = published }) w in
      elim (Result-cases r₁) [
        | inr (x, e) ↦ ground arith
        | inl (updated, e) ↦
            let payload =
              env.marshal_event (trip_published env ctx req updated (env.now w₁.tick)) in
            elim (Result-cases payload) [
              | inr (x, f) ↦ ground arith
              | inl (text, f) ↦
                  let b = create_outbox_event-Keeps (outbox_event env updated text) (next w₁) in
                  ground arith
            ]
      ]

  pub publish_block-Keeps : (ctx : Context) (command : TripCommand) → Keeps (block env ctx command)
  unfolding Usecase.publish_trip
  publish_block-Keeps ctx command w =
      let ctx' = with_trip_id ctx (env.uuid_text command.trip_id) in
      let (r₁, w₁) = Trips.get_for_update_by_id env command.trip_id w in
      let a = get_for_update_by_id-Keeps command.trip_id w in
      elim (Result-cases r₁) [
        | inr (x, e) ↦ ground arith
        | inl (trip, e) ↦
            let b = publish_checked-Keeps ctx' (request command) trip w₁ in
            elim (Result-cases (may_publish env (request command) trip)) [
              | inr (x, f) ↦ ground arith
              | inl (x, f) ↦ ground arith
            ]
      ]

  pub start_block-Keeps :
      (command : TripCommand) → Keeps (start_block env (trip_service env) command)
  unfolding start_block
  start_block-Keeps command w =
      let (r₁, w₁) = Trips.get_for_update_by_id env command.trip_id w in
      let a = get_for_update_by_id-Keeps command.trip_id w in
      elim (Result-cases r₁) [
        | inr (x, e) ↦ ground arith
        | inl (trip, e) ↦ elim (Bool-cases (trip.driver_id == command.client_id)) [
          | inr other ↦ ground arith
          | inl driver ↦ elim (Result-cases (start trip)) [
            | inr (x, f) ↦ ground arith
            | inl (new, f) ↦ let b = update-Keeps new w₁ in ground arith
          ]
        ]
      ]

  pub create_block-Keeps :
      (req : CreateTripRequest) → Keeps (Usecase.create_trip (trip_service env).trip_usecase req)
  unfolding Usecase.create_trip
  create_block-Keeps req w = let a = create-Keeps (draft_of req) w in ground arith
