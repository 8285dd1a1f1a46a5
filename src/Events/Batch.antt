-- ===== src/Events/Batch.antt =====
-- `publishBatch` as a whole.
use share_trip.Base.{◌≡◌, ◌∙◌, ◌⊎◌, inl, inr, List, arith}
use share_trip.Result.{ok, Result-cases}
use share_trip.Domain.{OutboxEvent}
use share_trip.World.{World, Action, ◌>>=◌}
use share_trip.Env.{Env}
use share_trip.Repository.Outbox
use share_trip.Repository.Outbox.{oldest_pending}
use share_trip.Service.Transaction.{begun, begin_func}
use share_trip.Service.Atomic.{begin_func_atomic}
use share_trip.Events.{producer, publish_events, publish_batch}
use share_trip.Events.Delivery.{IsDelivered, publish_events-IsDelivered}
use share_trip.Wiring.{outbox_queue}

module _ (env : Env) where
  abbrev pub block : Action (Unit {0})
  block = Outbox.lock_pending env >>= publish_events env (outbox_queue env) (producer env)

  pub lock_pending-eq-ok :
      (w w' : World) {es : List OutboxEvent}
      → Outbox.lock_pending env w ≡ (ok es, w')
      → (es ≡ oldest_pending w.tables.outbox) × (w'.tables ≡ w.tables) × (w'.topic ≡ w.topic)
  unfolding Outbox.lock_pending
  lock_pending-eq-ok w w' h = (ground arith, ground arith, ground arith)

  block-IsDelivered :
      (w w' : World) {x : Unit {0}}
      → block w ≡ (ok x, w')
      → IsDelivered env (oldest_pending w.tables.outbox) w w'
  block-IsDelivered w w' {x} h =
      let (r, w₁) = Outbox.lock_pending env w in
      elim (Result-cases r) [
        | inr (y, e) ↦ absurd (ground arith)
        | inl (es, e) ↦
            let (is_oldest, t, p) = lock_pending-eq-ok w w₁ (λ i. (e i, w₁)) in
            let delivered = publish_events-IsDelivered env es w₁ w' {x = x} (ground arith) in
            rw (is_oldest, t, p) at delivered
      ]

  module _ (w : World) where
    abbrev pub after_batch : World
    after_batch = (publish_batch env (outbox_queue env) (producer env) w).1

    count_pending-tables :
        (w₀ : World)
        → ((Outbox.count_pending env w₀).1.tables ≡ w₀.tables)
          × ((Outbox.count_pending env w₀).1.topic ≡ w₀.topic)
    unfolding Outbox.count_pending
    count_pending-tables w₀ = (ground arith, ground arith)

    pub after_batch-tables :
        (after_batch.tables ≡ (begin_func env block w).1.tables)
        × (after_batch.topic ≡ (begin_func env block w).1.topic)
    unfolding publish_batch
    after_batch-tables =
        let w₀ = (begin_func env block w).1 in
        let (t, p) = count_pending-tables w₀ in (ground arith, ground arith)

    -- After a batch, whatever it returns, the tables are untouched, or its events are the oldest
    -- pending ones, and each in turn has been acknowledged by Kafka and marked as sent, or has failed,
    -- left pending with one attempt more and the reason; nothing else differs.
    pub publish_batch_atomic :
        (after_batch.tables ≡ w.tables)
        ⊎ IsDelivered env (oldest_pending w.tables.outbox) w after_batch
    publish_batch_atomic = elim (begin_func_atomic env block w) [
      | inl t ↦ inl (after_batch-tables.0 ∙ t)
      | inr (x, w₁, h, t, p) ↦ inr (
          rw (after_batch-tables.0, after_batch-tables.1, t, p)
            (block-IsDelivered (begun env w) w₁ h))
    ]
