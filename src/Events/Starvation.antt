-- ===== src/Events/Starvation.antt =====
-- Batches of events that do not decode.
use share_trip.Base.{
  ℕ, zero, suc, String, ◌≡◌, refl, ap, ◌∙◌, inl, inr, List, [], ◌∷◌, map, All, arith,
}
use share_trip.GoError.{GoError}
use share_trip.Result.{err, Result-cases}
use share_trip.Domain.{Uuid, OutboxEvent}
use share_trip.World.{World, Message}
use share_trip.Env.{Env}
use share_trip.Repository.Outbox
use share_trip.Repository.Outbox.{oldest_pending, update_event}
use share_trip.Repository.Selection.{KeepsPlace, oldest_pending-update_event}
use share_trip.Events.{Signal, ticked, producer, send, publish_event, publish_events, run}
use share_trip.Events.Delivery.{Deliveries, finished, sent, failed, as_failed, loop}
use share_trip.Events.Batch.{
  block, lock_pending-eq-ok, after_batch, after_batch-tables, publish_batch_atomic,
}
use share_trip.Service.Transaction.{begun}
use share_trip.Service.Atomic.{begin_func-topic}
use share_trip.Wiring.{outbox_queue}

unfoldable pub ticks : ℕ → List Signal
ticks zero = []
ticks (suc n) = ticked ∷ ticks n

-- The payload does not decode.
abbrev pub IsPoison : Env → OutboxEvent → Type 0
IsPoison env e = (x : GoError) × (env.unmarshal_event e.payload ≡ err x)

abbrev pub ids : List OutboxEvent → List Uuid
ids es = map (λ (e : OutboxEvent). e.id) es

as_failed-KeepsPlace : (reason : String) → KeepsPlace (as_failed reason)
as_failed-KeepsPlace reason = record { status_kept = λ e. refl; created_kept = λ e. refl }

ids-update_event :
    (id : Uuid) (reason : String) (es : List OutboxEvent)
    → ids (update_event id (as_failed reason) es) ≡ ids es
unfolding update_event
ids-update_event id reason [] = refl
ids-update_event id reason (e ∷ es) = ground (arith, ids-update_event id reason es)

module _ (env : Env) where
  Poison-update_event :
      (id : Uuid) (reason : String) (es : List OutboxEvent)
      → All (IsPoison env) es
      → All (IsPoison env) (update_event id (as_failed reason) es)
  unfolding update_event
  Poison-update_event id reason [] a = tt
  Poison-update_event id reason (e ∷ es) ((x, h), a) =
      ((x, ground arith), Poison-update_event id reason es a)

  -- What a batch of such events leaves of the queue.
  abbrev SameHead : (o o' : List OutboxEvent) → Type 0
  SameHead o o' =
      (ids (oldest_pending o') ≡ ids (oldest_pending o)) × All (IsPoison env) (oldest_pending o')

  Deliveries-SameHead :
      {es o o' : List OutboxEvent} {p p' : List Message}
      → Deliveries env es o o' p p'
      → All (IsPoison env) es
      → All (IsPoison env) (oldest_pending o)
      → SameHead o o'
  Deliveries-SameHead (finished o p) a head = (refl, head)
  Deliveries-SameHead (sent e m now c d) ((x, h), a) head =
      let f = c.decodes in absurd (ground arith)
  Deliveries-SameHead (failed {o = o} e reason d) (bad, a) head =
      let follows =
        oldest_pending-update_event e.id (as_failed reason) (as_failed-KeepsPlace reason) o in
      let still = Poison-update_event e.id reason (oldest_pending o) head in
      let (same, poison) = Deliveries-SameHead d a (rw follows still) in
      (same ∙ ap ids follows ∙ ids-update_event e.id reason (oldest_pending o), poison)

  send-topic :
      (e : OutboxEvent) (w : World)
      → IsPoison env e
      → (send env (outbox_queue env) (producer env) e w).1.topic ≡ w.topic
  unfolding send
  send-topic e w (x, h) = ground arith

  publish_event-topic :
      (e : OutboxEvent) (w : World)
      → IsPoison env e
      → (publish_event env (outbox_queue env) (producer env) e w).1.topic ≡ w.topic
  unfolding publish_event Outbox.mark_failed
  publish_event-topic e w (x, h) = ground arith

  loop-topic :
      (es : List OutboxEvent) (w : World)
      → All (IsPoison env) es
      → (loop env es w).1.topic ≡ w.topic
  unfolding publish_events
  loop-topic [] w a = refl
  loop-topic (e ∷ es) w (bad, a) = ground (
    arith,
    publish_event-topic e w bad,
    loop-topic es (publish_event env (outbox_queue env) (producer env) e w).1 a,
  )

  lock_pending-topic : (w : World) → (Outbox.lock_pending env w).1.topic ≡ w.topic
  unfolding Outbox.lock_pending
  lock_pending-topic w = ground arith

  module _ (w : World) (head : All (IsPoison env) (oldest_pending w.tables.outbox)) where
    block-topic : (block env (begun env w)).1.topic ≡ w.topic
    block-topic =
        let w₀ = begun env w in
        let (r, w₁) = Outbox.lock_pending env w₀ in
        let t = lock_pending-topic w₀ in
        elim (Result-cases r) [
          | inr (x, e) ↦ ground arith
          | inl (es, e) ↦
              let (same, u, p) = lock_pending-eq-ok env w₀ w₁ (λ i. (e i, w₁)) in
              let q = loop-topic es w₁ (rw same head) in ground arith
        ]

    publish_batch-topic : (after_batch env w).topic ≡ w.topic
    publish_batch-topic = elim (begin_func-topic env (block env) w) [
      | inl t ↦ (after_batch-tables env w).1 ∙ t
      | inr t ↦ (after_batch-tables env w).1 ∙ t ∙ block-topic
    ]

    publish_batch-SameHead : SameHead w.tables.outbox (after_batch env w).tables.outbox
    publish_batch-SameHead = elim (publish_batch_atomic env w) [
      | inl same ↦ rw same (refl, head)
      | inr (d, t) ↦ Deliveries-SameHead d head head
    ]

  -- If no event of the batch decodes, then after any number of batches the same events are selected
  -- again and Kafka has been sent nothing: the events behind them are never published.
  pub run_starved :
      (n : ℕ) (w : World)
      → All (IsPoison env) (oldest_pending w.tables.outbox)
      → let w' = (run env (outbox_queue env) (producer env) (ticks n) w).1 in
        (ids (oldest_pending w'.tables.outbox) ≡ ids (oldest_pending w.tables.outbox))
        × (w'.topic ≡ w.topic)
  unfolding run ticks
  run_starved zero w head = (refl, refl)
  run_starved (suc n) w head =
      let (same, still) = publish_batch-SameHead w head in
      let (later, topic) = run_starved n (after_batch env w) still in
      (later ∙ same, topic ∙ publish_batch-topic w head)
