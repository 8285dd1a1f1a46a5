-- ===== src/Tests/Publishing.antt =====
-- `PublishTrip` and its route.
use share_trip.Base.{
  ℕ, String, true, false, ◌≡◌, refl, ◌⊎◌, Option, none, some, List, [], ◌∷◌, map, arith,
}
use share_trip.GoError.{GoError, sentinel, detailed, unavailable}
use share_trip.Result.{Result, ok, err}
use share_trip.Metrics.{result_success}
use share_trip.Domain.{Trip, OutboxEvent, TripPublished, draft, published}
use share_trip.World.{World}
use share_trip.Env.{Env, answered}
use share_trip.Lifecycle.Changes.{IsPublished}
use share_trip.Repository.Trips.{find_trip, fits_int4, check_seats}
use share_trip.Repository.Reliable.{IsReliable, HasSeats}
use share_trip.Service.Trips.{publish_trip, CheckResult}
use share_trip.Service.Publishing.Outcome.{checked, publish_trip_atomic, publish_trip_failed}
use share_trip.Api.Handlers.{move_trip_draft_to_published, client_id_from_claims}
use share_trip.Api.Publishing.{publish_status, publish_ok, publish_unchecked}
use share_trip.Api.Response.{Response}
use share_trip.Api.Routes.{final_status}
use share_trip.Contract.{outcome}
use share_trip.Wiring.{trip_service, server}
use share_trip.Service.Validate.{is_blank}
use share_trip.Service.Counting.{publish_trip_counted}
use share_trip.Base.{◌≢◌}
use share_trip.Env.{answer_lost}
use share_trip.GoError.{forbidden, annotated}
use share_trip.Service.Trips.{TripCommand}
use share_trip.Tests.Setup.{env, answering, overloaded, context, command, drafted, claims}

abbrev called : World
called = (publish_trip env (trip_service env) context command drafted).1

abbrev permission : CheckResult
permission = record { allowed = true; reason = "" }

publish_trip_returns : (publish_trip env (trip_service env) context command drafted).0 ≡ ok 1
unfolding publish_trip share_trip.Contract.check_service share_trip.Service.Transaction.tx
    share_trip.Domain.Usecase.publish_trip share_trip.Repository.Trips.get_for_update_by_id
    share_trip.Domain.Usecase.may_publish share_trip.Domain.TripStatus-discrete
    share_trip.Domain.Usecase.publish_checked share_trip.Repository.Trips.update
    share_trip.Repository.Outbox.create_outbox_event
publish_trip_returns = refl

publish_trip_outbox : map (λ (e : OutboxEvent). e.payload) called.tables.outbox ≡ "1001,1" ∷ []
unfolding publish_trip share_trip.Contract.check_service share_trip.Service.Transaction.tx
    share_trip.Domain.Usecase.publish_trip share_trip.Repository.Trips.get_for_update_by_id
    share_trip.Domain.Usecase.may_publish share_trip.Domain.TripStatus-discrete
    share_trip.Domain.Usecase.publish_checked share_trip.Repository.Trips.update
    share_trip.Repository.Outbox.create_outbox_event share_trip.Repository.Outbox.put_event
    share_trip.Repository.Outbox.pending_row share_trip.Domain.Usecase.outbox_event
    share_trip.Domain.Usecase.trip_published share_trip.Base.Text.itoa
publish_trip_outbox = refl

publish_trip_atomic_example :
    (called.tables ≡ drafted.tables) ⊎ IsPublished env ("r", "c") 1 7 drafted.tables called.tables
publish_trip_atomic_example = publish_trip_atomic env context command drafted

env-IsReliable : IsReliable env
env-IsReliable = record { runs = λ n. refl; commits = λ n. refl }

encodes : (d : TripPublished) → (text : String) × (env.marshal_event d ≡ ok text)
encodes d = (_, refl)

permitted : (checked env context command drafted).0 ≡ ok permission
unfolding share_trip.Contract.check_service
permitted = refl

drafted-HasSeats : (trip : Trip) → find_trip 1 drafted.tables.trips ≡ some trip → HasSeats trip
unfolding find_trip fits_int4 check_seats
drafted-HasSeats trip h = record { fits = ground arith; positive = ground arith }

abbrev no_ping : ℕ → Option GoError
no_ping n = none

-- The handler's answer to the body `{"tripId": "1"}`.
abbrev handled : Env → Result Response × World
handled env =
    move_trip_draft_to_published env (server env no_ping) (some claims) context (ok "1") drafted

client_known : client_id_from_claims env (some claims) ≡ ok 7
unfolding client_id_from_claims share_trip.Config.number
client_known = refl

not_blank : is_blank "1" ≡ false
unfolding share_trip.Base.Text.trim_space
not_blank = refl

parsed : env.uuid_parse "1" ≡ some 1
unfolding share_trip.Config.number
parsed = refl

publish_status_example : final_status (handled env).0 ≡ 200
unfolding find_trip
publish_status_example =
    publish_status env no_ping (some claims) context drafted client_known not_blank parsed
      env-IsReliable encodes permission permitted refl drafted-HasSeats

handled_200 : final_status (handled env).0 ≡ 200
unfolding final_status move_trip_draft_to_published client_id_from_claims share_trip.Config.number
    share_trip.Base.Text.trim_space publish_trip share_trip.Contract.check_service
    share_trip.Service.Transaction.tx share_trip.Domain.Usecase.publish_trip
    share_trip.Repository.Trips.get_for_update_by_id share_trip.Domain.Usecase.may_publish
    share_trip.Domain.TripStatus-discrete share_trip.Domain.Usecase.publish_checked
    share_trip.Repository.Trips.update share_trip.Repository.Outbox.create_outbox_event
handled_200 = refl

publish_ok_example :
    (permission : CheckResult) × ((checked env context command drafted).0 ≡ ok permission)
    × (permission.allowed ≡ true)
    × IsPublished env ("r", "c") 1 7 drafted.tables (handled env).1.tables
publish_ok_example =
    publish_ok env no_ping (some claims) context drafted client_known not_blank parsed handled_200

abbrev overloaded_failure : GoError
overloaded_failure = detailed (sentinel unavailable) "HTTP 503"

overloaded-outcome : outcome (answered overloaded) ≡ err overloaded_failure
unfolding share_trip.Contract.read_response share_trip.Base.Text.itoa
overloaded-outcome = refl

client_known_overloaded : client_id_from_claims (answering overloaded) (some claims) ≡ ok 7
unfolding client_id_from_claims share_trip.Config.number
client_known_overloaded = refl

publish_unchecked_example :
    (final_status (handled (answering overloaded)).0 ≡ 503)
    × ((handled (answering overloaded)).1.tables ≡ drafted.tables)
publish_unchecked_example =
    publish_unchecked (answering overloaded) no_ping (some claims) context drafted
      client_known_overloaded not_blank parsed overloaded_failure overloaded-outcome

publish_trip_counted_example :
    (called.metrics.trip_publish_total ≡ (result_success ∷ []) ∷ [])
    × (called.metrics.trip_publish_duration ≡ (result_success ∷ []) ∷ [])
unfolding publish_trip share_trip.Contract.check_service share_trip.Service.Transaction.tx
    share_trip.Domain.Usecase.publish_trip share_trip.Repository.Trips.get_for_update_by_id
    share_trip.Domain.Usecase.may_publish share_trip.Domain.TripStatus-discrete
    share_trip.Domain.Usecase.publish_checked share_trip.Repository.Trips.update
    share_trip.Repository.Outbox.create_outbox_event
publish_trip_counted_example = publish_trip_counted env context command drafted

-- Another driver asks for trip 1.
abbrev other : TripCommand
other = record { trip_id = 1; client_id = 8 }

abbrev refusal : GoError
refusal = annotated "publish trip transaction" (
    annotated "transaction block"
      (detailed (sentinel forbidden) "client 8 is not driver of trip 1"))

no_answer_lost : (n : ℕ) (m : String) → env.commit n ≢ answer_lost m
no_answer_lost n m h = absurd (ground arith)

wrong_driver : (publish_trip env (trip_service env) context other drafted).0 ≡ err refusal
unfolding publish_trip share_trip.Contract.check_service share_trip.Service.Transaction.tx
    share_trip.Domain.Usecase.publish_trip share_trip.Repository.Trips.get_for_update_by_id
    share_trip.Domain.Usecase.may_publish share_trip.Base.Text.itoa
wrong_driver = refl

publish_trip_failed_example :
    (publish_trip env (trip_service env) context other drafted).1.tables ≡ drafted.tables
publish_trip_failed_example =
    publish_trip_failed env context other drafted no_answer_lost refusal wrong_driver
