-- ===== src/Service/Publishing/Outcome.antt =====
-- What a call of `PublishTrip` leaves behind, whatever the services around it do.
use share_trip.Base.{ℕ, String, ◌≢◌, Bool-cases, true, ◌≡◌, refl, ◌∙◌, ◌⊎◌, inl, inr, arith}
use share_trip.GoError.{GoError}
use share_trip.Result.{Result, ok, err, Result-cases}
use share_trip.Context.{Context, causes, with_trip_id}
use share_trip.Domain.{Uuid, PublishTripRequest}
use share_trip.Domain.Usecase
use share_trip.World.{World, Action}
use share_trip.Env.{Env, answer_lost}
use share_trip.Lifecycle.Changes.{IsPublished}
use share_trip.Contract.{check_service}
use share_trip.Service.Trips.{TripCommand, CheckResult, publish_trip}
use share_trip.Service.Transaction.{tx, begun}
use share_trip.Service.Atomic.{tx-eq-ok, tx-eq-err, tx_atomic}
use share_trip.Service.Publishing.{publish_trip-eq-ok as usecase-eq-ok, publish_checked-eq-ok}
use share_trip.Wiring.{trip_service}

abbrev pub request : TripCommand → PublishTripRequest
request command = record { trip_id = command.trip_id; client_id = command.client_id }

-- The transaction's block.
abbrev pub block : Env → Context → TripCommand → Action Uuid
block env ctx command =
    Usecase.publish_trip env (trip_service env).trip_usecase
      (with_trip_id ctx (env.uuid_text command.trip_id)) (request command)

block-IsPublished :
    (env : Env) (ctx : Context) (command : TripCommand) (w w' : World) {id : Uuid}
    → block env ctx command w ≡ (ok id, w')
    → IsPublished env (causes ctx) command.trip_id command.client_id w.tables w'.tables
      × (id ≡ command.trip_id)
block-IsPublished env ctx command w w' h =
    let ctx' = with_trip_id ctx (env.uuid_text command.trip_id) in
    let req = request command in
    let (trip, w₁, same, found, driver, is_draft, rest) = usecase-eq-ok env ctx' req w w' h in
    let (done, id) = publish_checked-eq-ok env ctx' req w₁ w' trip found driver is_draft rest in
    (rw same at done, id)

-- The answer of the contract service, and the world after the check.
abbrev pub checked : Env → Context → TripCommand → World → Result CheckResult × World
checked env ctx command =
    check_service env (with_trip_id ctx (env.uuid_text command.trip_id))
      (env.uuid_text command.client_id) "trip_creation"

-- The check changes no table.
pub checked-tables :
    (env : Env) (ctx : Context) (command : TripCommand) (w : World)
    → (checked env ctx command w).1.tables ≡ w.tables
unfolding check_service
checked-tables env ctx command w = refl

module _ (env : Env) (ctx : Context) (command : TripCommand) (w : World) where
  abbrev call : Result Uuid × World
  call = publish_trip env (trip_service env) ctx command w

  abbrev transaction : Result Uuid × World
  transaction = tx env (block env ctx command) (checked env ctx command w).1

  call_tables :
      (call.1.tables ≡ (checked env ctx command w).1.tables)
      ⊎ (call.1.tables ≡ transaction.1.tables)
  unfolding publish_trip
  call_tables = ground arith

  call-eq-ok :
      {id : Uuid}
      → call.0 ≡ ok id
      → (permission : CheckResult) × ((checked env ctx command w).0 ≡ ok permission)
        × (permission.allowed ≡ true)
        × (transaction.0 ≡ ok id)
        × (call.1.tables ≡ transaction.1.tables)
  unfolding publish_trip
  call-eq-ok {id} h = elim (Result-cases (checked env ctx command w).0) [
    | inr (x, e) ↦ absurd (ground arith)
    | inl (permission, e) ↦ (permission, e, ground arith, ground arith, ground arith)
  ]

  -- After a publication, whatever it returns, the tables are untouched, or the client's draft has
  -- become published with its event in the outbox: never one without the other.
  pub publish_trip_atomic :
      (call.1.tables ≡ w.tables)
      ⊎ IsPublished env (causes ctx) command.trip_id command.client_id w.tables call.1.tables
  publish_trip_atomic =
      let same = checked-tables env ctx command w in
      elim call_tables [
        | inl e ↦ inl (e ∙ same)
        | inr e ↦ elim (tx_atomic env (block env ctx command) (checked env ctx command w).1) [
          | inl t ↦ inl (e ∙ t ∙ same)
          | inr (id, w₁, h, t, p) ↦
              inr (rw (e, t) (rw same at (block-IsPublished env ctx command _ w₁ h).0))
        ]
      ]

  -- A publication that succeeds had the contract service's permission, returns the id of the command,
  -- and has published the client's draft with its event in the outbox.
  pub publish_trip_success :
      {id : Uuid}
      → call.0 ≡ ok id
      → (permission : CheckResult) × ((checked env ctx command w).0 ≡ ok permission)
        × (permission.allowed ≡ true)
        × (id ≡ command.trip_id)
        × IsPublished env (causes ctx) command.trip_id command.client_id w.tables call.1.tables
  publish_trip_success {id} h =
      let (permission, answer, allowed, done, e) = call-eq-ok h in
      let w₀ = (checked env ctx command w).1 in
      let (w₁, h₁, t) =
        tx-eq-ok env (block env ctx command) w₀ transaction.1 (λ i. (done i, transaction.1)) in
      let (changed, same_id) = block-IsPublished env ctx command (begun env w₀) w₁ h₁ in
      let same = checked-tables env ctx command w in
      (permission, answer, allowed, same_id, rw (e, t) (rw same at changed))

  -- If no answer to a `COMMIT` is lost, a publication that fails changes no table.
  pub publish_trip_failed :
      ((n : ℕ) (m : String) → env.commit n ≢ answer_lost m)
      → (x : GoError) → call.0 ≡ err x
      → call.1.tables ≡ w.tables
  unfolding publish_trip
  publish_trip_failed known x h =
      let same = checked-tables env ctx command w in
      let w₁ = (checked env ctx command w).1 in
      elim (Result-cases (checked env ctx command w).0) [
        | inr (y, e) ↦ ground arith
        | inl (permission, e) ↦ elim (Bool-cases permission.allowed) [
          | inr denied ↦ ground arith
          | inl granted ↦ elim (Result-cases transaction.0) [
            | inl (id, f) ↦ absurd (ground arith)
            | inr (y, f) ↦
                let back = tx-eq-err env (block env ctx command) w₁ known {x = y} f in ground arith
          ]
        ]
      ]
