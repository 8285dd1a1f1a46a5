-- ===== src/Events.antt =====
-- internal/events: the Kafka producer and the outbox publisher.
pub mod Delivery
pub mod Batch
pub mod Starvation
pub mod Progress
pub mod Remaining
pub mod Draining
pub mod Correlated
pub mod Topic
pub mod Publishers
use share_trip.Base.{ℕ, suc, String, ◌<>◌, Option, none, some, List, [], ◌∷◌, ◌++◌}
use share_trip.GoError.{GoError, sentinel, message, annotated, joined, canceled}
use share_trip.Result.{Result, ok, err}
use share_trip.Metrics.{result_success, result_error}
use share_trip.Domain.{Uuid, OutboxEvent, TripPublished}
use share_trip.World.{World, Message, Action, ◌>>=◌, ◌>>◌, pure, set_metrics, next}
use share_trip.Env.{Env}
use share_trip.Service.Transaction.{begin_func}

-- `outboxRepository` and `tripPublisher`
pub record OutboxQueue : Type 0 where
  pub count_pending : Action ℕ
  pub lock_pending : Action (List OutboxEvent)
  pub mark_sent : Uuid → Action (Unit {0})
  pub mark_failed : Uuid → GoError → Action (Unit {0})

pub record TripPublisher : Type 0 where
  pub publish_trip_published : TripPublished → Action (Unit {0})

-- The pool is the environment, and the metrics are those of the world; the methods below take the
-- two other fields.
pub record OutboxPublisher : Type 0 where
  pub outbox : OutboxQueue
  pub kafka : TripPublisher

abbrev pub new_outbox_publisher : OutboxQueue → TripPublisher → OutboxPublisher
new_outbox_publisher outbox kafka = record { outbox = outbox; kafka = kafka }

unfoldable pub kafka_message : TripPublished → String → Message
kafka_message event value = record {
  key = event.trip_id;
  value = value;
  headers =
      ("event_id", event.event_id)
      ∷ ("event_type", event.event_type)
      ∷ ("correlation_id", event.correlation_id)
      ∷ ("causation_id", event.causation_id)
      ∷ ("traceparent", event.trace_parent)
      ∷ [];
}

-- A message joins the topic when Kafka acknowledges it.
unfoldable pub write_message : Env → Message → Action (Unit {0})
write_message env m w = elim (env.write_messages w.tick m) [
  | some e ↦ (err (message e), next w)
  | none ↦ (ok tt, record (next w) { topic = w.topic ++ (m ∷ []) })
]

-- `Producer.PublishTripPublished`
unfoldable pub produce : Env → TripPublished → Action (Unit {0})
unfolding kafka_message write_message
produce env event w = elim (env.marshal_event event) [
  | err e ↦ (err e, w)
  | ok value ↦ write_message env (kafka_message event value) w
]

abbrev pub producer : Env → TripPublisher
producer env = record { publish_trip_published = produce env }

unfoldable pub count_failure : World → World
count_failure w = set_metrics w (record w.metrics {
  outbox_publish_total = (result_error ∷ []) ∷ w.metrics.outbox_publish_total;
  outbox_publish_failed = suc w.metrics.outbox_publish_failed;
})

unfoldable pub count_success : World → World
count_success w = set_metrics w (record w.metrics {
  outbox_publish_total = (result_success ∷ []) ∷ w.metrics.outbox_publish_total;
})

-- `errors.Join` of two errors that may be nil.
abbrev pub join_errors : {A B : Type 0} → Result A → Result B → Result (Unit {0})
join_errors (ok _) (ok _) = ok tt
join_errors (ok _) (err f) = err f
join_errors (err e) (ok _) = err e
join_errors (err e) (err f) = err (joined e f)

-- The gauge follows the count, if there is one.
unfoldable pub set_pending : Result ℕ × World → World
set_pending (err e, w) = w
set_pending (ok n, w) = set_metrics w (record w.metrics { outbox_pending = n })

module _ (env : Env) (outbox : OutboxQueue) (kafka : TripPublisher) where
  -- Decoding and sending one event.
  unfoldable pub send : OutboxEvent → Action (Unit {0})
  send event w = elim (env.unmarshal_event event.payload) [
    | err e ↦ (err (annotated ("decode outbox event " <> env.uuid_text event.id) e), w)
    | ok decoded ↦ kafka.publish_trip_published decoded w
  ]

  -- The body of the loop over the events.
  unfoldable pub publish_event : OutboxEvent → Action (Unit {0})
  unfolding send count_failure count_success
  publish_event event w =
      let (r, w') = send event w in
      elim r [
        | err e ↦ outbox.mark_failed event.id e (count_failure w')
        | ok _ ↦ outbox.mark_sent event.id (count_success w')
      ]

  unfoldable pub publish_events : List OutboxEvent → Action (Unit {0})
  unfolding publish_event
  publish_events [] = pure tt
  publish_events (event ∷ events) = publish_event event >> publish_events events

  unfoldable pub publish_batch : Action (Unit {0})
  unfolding set_pending
  publish_batch w =
      let (published, w₁) = begin_func env (outbox.lock_pending >>= publish_events) w in
      let (counted, w₂) = outbox.count_pending w₁ in
      (join_errors published counted, set_pending (counted, w₂))

-- What wakes `Run`: the ticker, or the end of its context.
pub data Signal : Type 0 where
  ticked done : Signal

module _ (env : Env) (outbox : OutboxQueue) (kafka : TripPublisher) where
  -- The loop over the signals that arrive. A batch's error is logged and the loop goes on.
  unfoldable pub run : List Signal → World → Option GoError × World
  run [] w = (none, w)
  run (done ∷ signals) w = (some (sentinel canceled), w)
  run (ticked ∷ signals) w = run signals (publish_batch env outbox kafka w).1
