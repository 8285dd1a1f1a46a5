-- ===== src/Events/Delivery.antt =====
-- What a batch does to the outbox and to the topic.
use share_trip.Base.{
  suc, String, ◌≡◌, refl, ap, subst, ◌⊎◌, inl, inr, some, List, [], ◌∷◌, ◌++◌, arith,
}
use share_trip.GoError.{GoError, error_text}
use share_trip.Result.{Result, ok, err, Result-cases}
use share_trip.Domain.{Uuid, Time, OutboxEvent, TripPublished}
use share_trip.World.{World, Message}
use share_trip.Env.{Env}
use share_trip.Repository.Outbox
use share_trip.Repository.Outbox.{update_event, status_sent, oldest_pending}
use share_trip.Events.{
  kafka_message, produce, producer, send, publish_event, publish_events, count_failure,
  count_success,
}
use share_trip.Wiring.{outbox_queue}

abbrev pub as_sent : Time → OutboxEvent → OutboxEvent
as_sent now e = record e { status = status_sent; sent_at = some now }

abbrev pub as_failed : String → OutboxEvent → OutboxEvent
as_failed reason e = record e { attempts = suc e.attempts; last_error = some reason }

-- `m` is the message that Kafka gets for an event.
pub record Carries (env : Env) (event : OutboxEvent) (m : Message) : Type 0 where
  pub decoded : TripPublished
  pub value : String
  pub decodes : env.unmarshal_event event.payload ≡ ok decoded
  pub encodes : env.marshal_event decoded ≡ ok value
  pub sent_as : m ≡ kafka_message decoded value

-- The events of a batch in turn: each has been acknowledged by Kafka and marked as sent, or has
-- failed, which its row records.
pub data Deliveries (env : Env)
    : List OutboxEvent → (o o' : List OutboxEvent) (p p' : List Message) → Type 0 where
  finished : (o : List OutboxEvent) (p : List Message) → Deliveries env [] o o p p
  sent :
      {es o o' : List OutboxEvent} {p p' : List Message} (e : OutboxEvent) (m : Message)
      (now : Time)
      → Carries env e m
      → Deliveries env es (update_event e.id (as_sent now) o) o' (p ++ (m ∷ [])) p'
      → Deliveries env (e ∷ es) o o' p p'
  failed :
      {es o o' : List OutboxEvent} {p p' : List Message} (e : OutboxEvent) (reason : String)
      → Deliveries env es (update_event e.id (as_failed reason) o) o' p p'
      → Deliveries env (e ∷ es) o o' p p'

produce-eq-ok :
    (env : Env) (d : TripPublished) (w : World) {x : Unit {0}}
    → (produce env d w).0 ≡ ok x
    → (value : String) × (env.marshal_event d ≡ ok value)
      × ((produce env d w).1.topic ≡ w.topic ++ (kafka_message d value ∷ []))
unfolding produce
produce-eq-ok env d w h = elim (Result-cases (env.marshal_event d)) [
  | inr (x, e) ↦ absurd (ground arith)
  | inl (value, e) ↦ (value, e, ground arith)
]

produce-tables : (env : Env) (d : TripPublished) (w : World) → (produce env d w).1.tables ≡ w.tables
unfolding produce
produce-tables env d w = ground arith

produce_failed-topic :
    (env : Env) (d : TripPublished) (w : World) {e : GoError}
    → (produce env d w).0 ≡ err e
    → (produce env d w).1.topic ≡ w.topic
unfolding produce
produce_failed-topic env d w h = ground arith

module _ (env : Env) (e : OutboxEvent) (w : World) where
  abbrev pub sending : Result (Unit {0}) × World
  sending = send env (outbox_queue env) (producer env) e w

  pub send-eq-ok :
      {x : Unit {0}}
      → sending.0 ≡ ok x
      → (m : Message) × Carries env e m × (sending.1.topic ≡ w.topic ++ (m ∷ []))
  unfolding send
  send-eq-ok {x} h = elim (Result-cases (env.unmarshal_event e.payload)) [
    | inr (y, f) ↦ absurd (ground arith)
    | inl (d, f) ↦
        let (value, g, t) = produce-eq-ok env d w {x = x} (ground arith) in
        (
          kafka_message d value,
          record { decoded = d; value = value; decodes = f; encodes = g; sent_as = refl },
          ground arith,
        )
  ]

  pub send-tables : sending.1.tables ≡ w.tables
  unfolding send
  send-tables = elim (Result-cases (env.unmarshal_event e.payload)) [
    | inr (y, f) ↦ ground arith
    | inl (d, f) ↦ ground (arith, produce-tables env d w)
  ]

  send_failed-topic : {x : GoError} → sending.0 ≡ err x → sending.1.topic ≡ w.topic
  unfolding send
  send_failed-topic {x} h = elim (Result-cases (env.unmarshal_event e.payload)) [
    | inr (y, f) ↦ ground arith
    | inl (d, f) ↦ ground (arith, produce_failed-topic env d w {e = x})
  ]

module _ (env : Env) (w w' : World) where
  pub mark_sent-eq-ok :
      (id : Uuid) {x : Unit {0}}
      → Outbox.mark_sent env id w ≡ (ok x, w')
      → (w'.tables
          ≡ record w.tables { outbox = update_event id (as_sent w.tx_time) w.tables.outbox })
        × (w'.topic ≡ w.topic)
  unfolding Outbox.mark_sent
  mark_sent-eq-ok id h = (ground arith, ground arith)

  pub mark_failed-eq-ok :
      (id : Uuid) (reason : GoError) {x : Unit {0}}
      → Outbox.mark_failed env id reason w ≡ (ok x, w')
      → (w'.tables ≡ record w.tables {
        outbox = update_event id (as_failed (error_text reason)) w.tables.outbox;
      })
        × (w'.topic ≡ w.topic)
  unfolding Outbox.mark_failed
  mark_failed-eq-ok id reason h = (ground arith, ground arith)

-- The rows and messages of two worlds, where nothing but these differs.
abbrev pub IsDelivered : Env → List OutboxEvent → World → World → Type 0
IsDelivered env es w w' =
    Deliveries env es w.tables.outbox w'.tables.outbox w.topic w'.topic
    × (w'.tables ≡ record w.tables { outbox = w'.tables.outbox })

-- One turn of the loop.
abbrev IsTurn : Env → OutboxEvent → World → World → Type 0
IsTurn env e w w' =
    ((m : Message) × (now : Time) × Carries env e m
      × (w'.tables ≡ record w.tables { outbox = update_event e.id (as_sent now) w.tables.outbox })
      × (w'.topic ≡ w.topic ++ (m ∷ [])))
    ⊎ ((reason : String) × (w'.tables
          ≡ record w.tables { outbox = update_event e.id (as_failed reason) w.tables.outbox })
        × (w'.topic ≡ w.topic))

publish_event-IsTurn :
    (env : Env) (e : OutboxEvent) (w w' : World) {x : Unit {0}}
    → publish_event env (outbox_queue env) (producer env) e w ≡ (ok x, w')
    → IsTurn env e w w'
unfolding publish_event
publish_event-IsTurn env e w w' {x} h =
    let (r, w₁) = sending env e w in
    let same = send-tables env e w in
    elim (Result-cases r) [
      | inl (y, f) ↦
          let (m, carried, p) = send-eq-ok env e w f in
          let (t, q) = mark_sent-eq-ok env (count_success w₁) w' e.id {x = x} (ground arith) in
          inl (m, w₁.tx_time, carried, ground arith, ground arith)
      | inr (reason, f) ↦
          let p = send_failed-topic env e w f in
          let (t, q) =
            mark_failed-eq-ok env (count_failure w₁) w' e.id reason {x = x} (ground arith) in
          inr (error_text reason, ground arith, ground arith)
    ]

module _ (env : Env) where
  abbrev pub loop : List OutboxEvent → World → Result (Unit {0}) × World
  loop = publish_events env (outbox_queue env) (producer env)

  abbrev turn : OutboxEvent → World → Result (Unit {0}) × World
  turn = publish_event env (outbox_queue env) (producer env)

  loop-cons :
      (e : OutboxEvent) (es : List OutboxEvent) (w w' : World) {x : Unit {0}}
      → loop (e ∷ es) w ≡ (ok x, w')
      → (y : Unit {0}) × (w₁ : World) × (turn e w ≡ (ok y, w₁)) × (loop es w₁ ≡ (ok x, w'))
  unfolding publish_events
  loop-cons e es w w' h = elim (Result-cases (turn e w).0) [
    | inl (y, f) ↦ (y, (turn e w).1, ground arith, ground arith)
    | inr (y, f) ↦ absurd (ground arith)
  ]

  loop-nil : (w w' : World) {x : Unit {0}} → loop [] w ≡ (ok x, w') → w ≡ w'
  unfolding publish_events
  loop-nil w w' h = ap (λ p. p.1) h

  pub publish_events-IsDelivered :
      (es : List OutboxEvent) (w w' : World) {x : Unit {0}}
      → loop es w ≡ (ok x, w')
      → IsDelivered env es w w'
  publish_events-IsDelivered [] w w' h =
      subst (λ u. IsDelivered env [] w u) (loop-nil w w' h) (finished _ _, refl)
  publish_events-IsDelivered (e ∷ es) w w' h =
      let (y, w₁, f, rest) = loop-cons e es w w' h in
      let (later, t) = publish_events-IsDelivered es w₁ w' rest in
      elim (publish_event-IsTurn env e w w₁ f) [
        | inl (m, now, carried, t₁, p₁) ↦
            (sent e m now carried (rw (t₁, p₁) at later), ground arith)
        | inr (reason, t₁, p₁) ↦ (failed e reason (rw (t₁, p₁) at later), ground arith)
      ]
