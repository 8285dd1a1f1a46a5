-- ===== src/Tests/Json.antt =====
-- A text for a message that gives every message back: a field is its characters, each behind a mark.
use share_trip.Base.{
  ℕ, zero, suc, String, true, false, ◌≡◌, refl, ap, Option, none, some, arith, ◌==◌, [], ◌∷◌,
}
use share_trip.Base.Int.{ℤ, pos, negsuc}
use Prim.Native.Char.{Char, char, code}
use share_trip.GoError.{message}
use share_trip.Result.{Result, ok, err}
use share_trip.Domain.{Uuid, TripPublished}
use share_trip.Env.{Env}
use share_trip.Context.{Context, logger, with_trip_id}
use mathlib.Core.List.{Memᴰ}
use share_trip.Contract.{outcome}
use share_trip.Lifecycle.Consistency.{IsConsistent, last_status}
use share_trip.Repository.Trips.{find_trip}
use share_trip.Service.Trips.{publish_trip, CheckResult}
use share_trip.Repository.Outbox.{has_event, status_pending}
use share_trip.Domain.{OutboxEvent}
use share_trip.Middleware.Correlation.{Received, correlation}
use share_trip.Events.{kafka_message}
use share_trip.Events.Delivery.{Carries}
use share_trip.Events.Correlated.{JsonRoundTrip, publish_correlated, inner, after, asked}
use share_trip.Wiring.{trip_service}
use share_trip.Tests.Setup.{env as plain_env, context, command, drafted}

abbrev mark : Char
mark = char 49 tt

abbrev stop : Char
stop = char 48 tt

unfoldable pub write : String → String → String
write String.[] rest = String.◌∷◌ stop rest
write (String.◌∷◌ c s) rest = String.◌∷◌ mark (String.◌∷◌ c (write s rest))

unfoldable pub read : String → Option (String × String)
read String.[] = none
read (String.◌∷◌ t String.[]) = elim (code t == 48) [
  | true ↦ some (String.[], String.[])
  | false ↦ none
]
read (String.◌∷◌ t (String.◌∷◌ c s)) = elim (code t == 48) [
  | true ↦ some (String.[], String.◌∷◌ c s)
  | false ↦ elim (read s) [ none ↦ none | some (field, rest) ↦ some (String.◌∷◌ c field, rest) ]
]

read-write : (s rest : String) → read (write s rest) ≡ some (s, rest)
unfolding read write
read-write String.[] String.[] = refl
read-write String.[] (String.◌∷◌ c rest) = refl
read-write (String.◌∷◌ c s) rest = ground (arith, read-write s rest)

unfoldable pub write_number : ℕ → String
write_number zero = ""
write_number (suc n) = String.◌∷◌ mark (write_number n)

unfoldable pub read_number : String → ℕ
read_number String.[] = 0
read_number (String.◌∷◌ c s) = suc (read_number s)

read_number-write_number : (n : ℕ) → read_number (write_number n) ≡ n
unfolding read_number write_number
read_number-write_number zero = refl
read_number-write_number (suc n) = ap suc (read_number-write_number n)

unfoldable pub write_time : ℤ → String
write_time (pos n) = String.◌∷◌ mark (write_number n)
write_time (negsuc n) = String.◌∷◌ stop (write_number n)

unfoldable pub read_time : String → Option ℤ
read_time String.[] = none
read_time (String.◌∷◌ c s) = elim (code c == 48) [
  | true ↦ some (negsuc (read_number s))
  | false ↦ some (pos (read_number s))
]

read_time-write_time : (t : ℤ) → read_time (write_time t) ≡ some t
unfolding read_time write_time
read_time-write_time (pos n) = ap (λ m. some (pos m)) (read_number-write_number n)
read_time-write_time (negsuc n) = ap (λ m. some (negsuc m)) (read_number-write_number n)

infixl 5 ◌>>=◌
abbrev ◌>>=◌ : {A B : Type 0} → Option A → (A → Option B) → Option B
none >>= f = none
some a >>= f = f a

unfoldable pub encode : TripPublished → String
encode d = write d.event_id (
    write d.event_type (
      write d.correlation_id (
        write d.causation_id (
          write d.trace_parent (
            write d.trip_id (write d.driver_id (write d.company_id (write_time d.occurred_at))))))))

unfoldable pub decode : String → Option TripPublished
decode s = do
  (event_id, s) ← read s
  (event_type, s) ← read s
  (correlation_id, s) ← read s
  (causation_id, s) ← read s
  (trace_parent, s) ← read s
  (trip_id, s) ← read s
  (driver_id, s) ← read s
  (company_id, s) ← read s
  occurred_at ← read_time s
  some (record {
    event_id = event_id;
    event_type = event_type;
    correlation_id = correlation_id;
    causation_id = causation_id;
    trace_parent = trace_parent;
    trip_id = trip_id;
    driver_id = driver_id;
    company_id = company_id;
    occurred_at = occurred_at;
  })

decode-encode : (d : TripPublished) → decode (encode d) ≡ some d
unfolding decode encode
decode-encode d = simp (read-write, read_time-write_time)

unfoldable pub or_error : Option TripPublished → Result TripPublished
or_error none = err (message "unexpected end of JSON input")
or_error (some d) = ok d

abbrev pub json_env : Env
json_env = record plain_env {
  marshal_event = λ d. ok (encode d);
  unmarshal_event = λ s. or_error (decode s);
}

pub json_env-JsonRoundTrip : JsonRoundTrip json_env
unfolding or_error
json_env-JsonRoundTrip d text h = let e = decode-encode d in ground arith

-- A request with a correlation id of its own, and none for the request.
abbrev received : Received
received = record {
  method = "POST";
  path = "/trip/publish";
  fresh = "f";
  request_id_header = "";
  correlation_id_header = "c";
}

abbrev calling : Context
calling = inner json_env [] received context command drafted

calling_returns : (publish_trip json_env (trip_service json_env) calling command drafted).0 ≡ ok 1
unfolding publish_trip share_trip.Contract.check_service share_trip.Service.Transaction.tx
    share_trip.Domain.Usecase.publish_trip share_trip.Repository.Trips.get_for_update_by_id
    share_trip.Domain.Usecase.may_publish share_trip.Domain.TripStatus-discrete
    share_trip.Domain.Usecase.publish_checked share_trip.Repository.Trips.update
    share_trip.Repository.Outbox.create_outbox_event
calling_returns = refl

-- The logger that the publication's context carries.
ids_in_log :
    logger [] (with_trip_id calling (json_env.uuid_text 1))
    ≡ ("request_id", "f")
      ∷ ("correlation_id", "c")
      ∷ ("method", "POST")
      ∷ ("path", "/trip/publish")
      ∷ []
unfolding correlation
ids_in_log = refl

drafted-IsConsistent : IsConsistent json_env drafted.tables
unfolding last_status find_trip has_event
drafted-IsConsistent = record {
  at = λ id. record { tracked = ground arith; announced = ground arith };
  chained = (refl, tt, tt);
}

publish_correlated_example :
    (event : OutboxEvent) × (d : TripPublished) × (text : String) × (permission : CheckResult)
    × (outcome (json_env.post 0 (asked json_env [] received context command drafted))
        ≡ ok permission)
    × (permission.allowed ≡ true)
    × ((asked json_env [] received context command drafted).request_id ≡ "f")
    × ((asked json_env [] received context command drafted).correlation_id ≡ "c")
    × (has_event event.id [] ≡ false)
    × Memᴰ event (after json_env [] received context command drafted).tables.outbox
    × (event.status ≡ status_pending)
    × Carries json_env event (kafka_message d text)
    × (d.trip_id ≡ json_env.uuid_text 1)
    × (d.driver_id ≡ json_env.uuid_text 7)
    × (d.correlation_id ≡ "c")
    × (d.causation_id ≡ "f")
unfolding correlation
publish_correlated_example =
    publish_correlated json_env [] received context command drafted json_env-JsonRoundTrip
      drafted-IsConsistent calling_returns
