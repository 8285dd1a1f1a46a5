-- ===== src/Service/Publishing/Decision.antt =====
-- What `PublishTrip` answers where the database answers: a function of the row and the client.
use share_trip.Base.{
  String, true, ◌≡◌, refl, ap, ◌∙◌, Option, none, some, arith, Option-cases, ◌==◌, if◌then◌else◌,
  inl, inr,
}
use share_trip.GoError.{GoError, Sentinel-discrete, sentinel, annotated, trip_not_found}
use share_trip.Result.{Result, ok, err}
use share_trip.Context.{Context, with_trip_id}
use share_trip.Metrics.{
  result_success, result_not_found, result_forbidden, result_conflict, result_already_published,
}
use share_trip.Domain.{
  Uuid, Trip, TripPublished, TripStatus-discrete, draft, published, PublishTripRequest,
}
use share_trip.Domain.Usecase
use share_trip.Domain.Usecase.{may_publish, publish_checked, trip_published, outbox_event}
use share_trip.World.{World, Tables, Action, next}
use share_trip.Env.{Env}
use share_trip.Repository.Trips
use share_trip.Repository.Trips.{find_trip}
use share_trip.Repository.Effects.{find_trip-id}
use share_trip.Repository.Reliable.{
  IsReliable, HasSeats, get_for_update_by_id-found_or_error, update_reliable,
  create_outbox_event_reliable,
}
use share_trip.Service.Trips.{TripCommand, CheckResult, publish_trip, publish_trip_result}
use share_trip.Service.Transaction.{tx, begun}
use share_trip.Service.Publishing.Outcome.{request, block, checked, checked-tables}
use share_trip.Wiring.{trip_service}

abbrev not_found : GoError
not_found = annotated "tripRepo.GetForUpdateByID" (sentinel trip_not_found)

-- The block's answer, from the row and the tests on it.
abbrev decide : Env → PublishTripRequest → Option Trip → Result Uuid
decide env req none = err not_found
decide env req (some trip) = elim (may_publish env req trip) [ err e ↦ err e | ok _ ↦ ok trip.id ]

abbrev pub wrapped : {A : Type 0} → Result A → Result A
wrapped (ok id) = ok id
wrapped (err e) = err (annotated "transaction block" e)

pub tx-wrapped :
    (env : Env) (reliable : IsReliable env) {A : Type 0} (block : Action A) (w : World)
    → (tx env block w).0 ≡ wrapped (block (begun env w)).0
unfolding tx
tx-wrapped env reliable block w =
    let a = reliable.runs w.tick in
    let b = reliable.commits (block (begun env w)).1.tick in ground arith

-- The label of a result in the metrics.
abbrev pub label : Result Uuid → String
label (ok id) = result_success
label (err e) = publish_trip_result e

-- The answer, by the row that the id finds and the client who asks.
abbrev pub expected : Option Trip → Uuid → String
expected none client = result_not_found
expected (some trip) client =
    if trip.driver_id == client
    then elim trip.status [
      | draft ↦ result_success
      | published ↦ result_already_published
      | _ ↦ result_conflict
    ]
    else result_forbidden

abbrev annotated_reply : Result Uuid → Result Uuid
annotated_reply (ok id) = ok id
annotated_reply (err e) = err (annotated "publish trip transaction" e)

-- The service's answer, from the row and the tests on it.
abbrev pub reply : Env → TripCommand → Option Trip → Result Uuid
reply env command o = annotated_reply (wrapped (decide env (request command) o))

call-eq-annotated_reply :
    (env : Env) (ctx : Context) (command : TripCommand) (w : World) {permission : CheckResult}
    → (checked env ctx command w).0 ≡ ok permission
    → permission.allowed ≡ true
    → (publish_trip env (trip_service env) ctx command w).0
      ≡ annotated_reply (tx env (block env ctx command) (checked env ctx command w).1).0
unfolding publish_trip
call-eq-annotated_reply env ctx command w answered allowed = ground arith

label-decide :
    (env : Env) (req : PublishTripRequest) (o : Option Trip)
    → label (annotated_reply (wrapped (decide env req o))) ≡ expected o req.client_id
unfolding publish_trip_result may_publish TripStatus-discrete Sentinel-discrete
label-decide env req none = refl
label-decide env req (some trip) = ground arith

module _ (env : Env) (reliable : IsReliable env)
    (encodes : (d : TripPublished) → (text : String) × (env.marshal_event d ≡ ok text)) where
  publish_checked-decides :
      (ctx : Context) (req : PublishTripRequest) (trip : Trip) (w : World) (id : Uuid)
      → find_trip id w.tables.trips ≡ some trip
      → HasSeats trip
      → (publish_checked env (trip_service env).trip_usecase ctx req trip w).0 ≡ ok trip.id
  unfolding publish_checked outbox_event
  publish_checked-decides ctx req trip w id found seats =
      let same : trip.id ≡ id = find_trip-id id _ found in
      let e =
        update_reliable env reliable w (record trip { status = published }) {old = trip}
          (ground arith) (record { fits = seats.fits; positive = seats.positive }) in
      let w₁ = (Trips.update env (record trip { status = published }) w).1 in
      let new = record trip { status = published; updated_at = w.tx_time } in
      let (text, f) = encodes (trip_published env ctx req new (env.now w₁.tick)) in
      let g = create_outbox_event_reliable env reliable (next w₁) (outbox_event env new text) in
      ground arith

  block-decides :
      (ctx : Context) (req : PublishTripRequest) (w : World)
      → ((trip : Trip) → find_trip req.trip_id w.tables.trips ≡ some trip → HasSeats trip)
      → (Usecase.publish_trip env (trip_service env).trip_usecase ctx req w).0
        ≡ decide env req (find_trip req.trip_id w.tables.trips)
  unfolding Usecase.publish_trip
  block-decides ctx req w seats =
      let (e, t) = get_for_update_by_id-found_or_error env reliable w req.trip_id in
      let w₁ = (Trips.get_for_update_by_id env req.trip_id w).1 in
      elim (Option-cases (find_trip req.trip_id w.tables.trips)) [
        | inl gone ↦ ground arith
        | inr (trip, found) ↦
            let done =
              publish_checked-decides ctx req trip w₁ req.trip_id (ground arith)
                (seats trip found) in
            ground arith
      ]

  module _ (ctx : Context) (command : TripCommand) (w : World) {permission : CheckResult}
      (answered : (checked env ctx command w).0 ≡ ok permission)
      (allowed : permission.allowed ≡ true)
      (seats : (trip : Trip)
        → find_trip command.trip_id w.tables.trips ≡ some trip
        → HasSeats trip) where
    pub publish_trip-eq-reply :
        (publish_trip env (trip_service env) ctx command w).0
        ≡ reply env command (find_trip command.trip_id w.tables.trips)
    publish_trip-eq-reply =
        let w₁ = (checked env ctx command w).1 in
        let ctx' = with_trip_id ctx (env.uuid_text command.trip_id) in
        let same = checked-tables env ctx command w in
        let e = block-decides ctx' (request command) (begun env w₁) (rw same seats) in
        let at_row =
          λ (t : Tables). decide env (request command) (find_trip command.trip_id t.trips) in
        call-eq-annotated_reply env ctx command w answered allowed
        ∙ ap annotated_reply
            (tx-wrapped env reliable (block env ctx command) w₁ ∙ ap wrapped (e ∙ ap at_row same))

    -- With the contract service's permission, a database that answers, an event that encodes and a
    -- row that meets its constraints, the outcome is the one that the row and the client determine:
    -- success for a draft of the client, and else the error of the first test that fails.
    pub publish_trip_decided :
        label (publish_trip env (trip_service env) ctx command w).0
        ≡ expected (find_trip command.trip_id w.tables.trips) command.client_id
    publish_trip_decided =
        ap label publish_trip-eq-reply
        ∙ label-decide env (request command) (find_trip command.trip_id w.tables.trips)
