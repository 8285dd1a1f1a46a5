-- ===== src/Events/Progress.antt =====
-- A batch where nothing fails.
use share_trip.Base.{ℕ, ◌≡◌, refl, sym, ap, none, List, [], ◌∷◌, ◌++◌, arith}
use share_trip.Result.{Result, ok}
use share_trip.Domain.{Time, OutboxEvent}
use share_trip.World.{World, Message}
use share_trip.Env.{Env}
use share_trip.Repository.Outbox
use share_trip.Repository.Outbox.{oldest_pending, update_event}
use share_trip.Repository.Reliable.{IsReliable}
use share_trip.Events.{producer, send, produce, publish_event, publish_events, publish_batch}
use share_trip.Events.Delivery.{Carries, as_sent, loop}
use share_trip.Events.Batch.{block}
use share_trip.Service.Transaction.{begun, begin_func}
use share_trip.Wiring.{outbox_queue}

-- The messages of the events, in their order.
abbrev pub AllCarry : Env → List OutboxEvent → List Message → Type 0
AllCarry env [] [] = Unit
AllCarry env (e ∷ es) (m ∷ ms) = Carries env e m × AllCarry env es ms
AllCarry env _ _ = ⊥

-- The outbox once all of the events are marked.
unfoldable pub all_sent : Time → List OutboxEvent → List OutboxEvent → List OutboxEvent
all_sent now [] o = o
all_sent now (e ∷ es) o = all_sent now es (update_event e.id (as_sent now) o)

append_assoc : (ms ns ps : List Message) → (ms ++ ns) ++ ps ≡ ms ++ (ns ++ ps)
append_assoc [] ns ps = refl
append_assoc (m ∷ ms) ns ps = ap (λ r. m ∷ r) (append_assoc ms ns ps)

append_nil : (ms : List Message) → ms ++ [] ≡ ms
append_nil [] = refl
append_nil (m ∷ ms) = ap (λ r. m ∷ r) (append_nil ms)

module _ (env : Env) (reliable : IsReliable env)
    (accepts : (n : ℕ) (m : Message) → env.write_messages n m ≡ none) where
  abbrev turn : OutboxEvent → World → Result (Unit {0}) × World
  turn = publish_event env (outbox_queue env) (producer env)

  send-accepted :
      (e : OutboxEvent) (m : Message) (w : World)
      → Carries env e m
      → let (r, w') = send env (outbox_queue env) (producer env) e w in
        (r ≡ ok tt)
        × (w'.tables ≡ w.tables)
        × (w'.topic ≡ w.topic ++ (m ∷ []))
        × (w'.tx_time ≡ w.tx_time)
  unfolding send produce
  send-accepted e m w c =
      let d = c.decodes in
      let v = c.encodes in
      let s = c.sent_as in
      let a = accepts w.tick m in (ground arith, ground arith, ground arith, ground arith)

  turn-accepted :
      (e : OutboxEvent) (m : Message) (w : World)
      → Carries env e m
      → let (r, w') = turn e w in
        (r ≡ ok tt)
        × (w'.tables
            ≡ record w.tables { outbox = update_event e.id (as_sent w.tx_time) w.tables.outbox })
        × (w'.topic ≡ w.topic ++ (m ∷ []))
        × (w'.tx_time ≡ w.tx_time)
  unfolding publish_event Outbox.mark_sent
  turn-accepted e m w c =
      let (r, w₁) = send env (outbox_queue env) (producer env) e w in
      let (done, t, p, n) = send-accepted e m w c in
      let a = reliable.runs w₁.tick in (ground arith, ground arith, ground arith, ground arith)

  -- What the loop leaves, for the events `es` and their messages `ms`.
  abbrev IsSent : List OutboxEvent → List Message → World → Result (Unit {0}) × World → Type 0
  IsSent es ms w (r, w') =
      (r ≡ ok tt)
      × (w'.tables ≡ record w.tables { outbox = all_sent w.tx_time es w.tables.outbox })
      × (w'.topic ≡ w.topic ++ ms)

  loop-accepted :
      (es : List OutboxEvent) (ms : List Message) (w : World)
      → AllCarry env es ms
      → IsSent es ms w (loop env es w)
  unfolding publish_events all_sent
  loop-accepted [] [] w c = (refl, refl, sym (append_nil w.topic))
  loop-accepted [] (m ∷ ms) w c = absurd c
  loop-accepted (e ∷ es) [] w c = absurd c
  loop-accepted (e ∷ es) (m ∷ ms) w (c, cs) =
      let w₁ = (turn e w).1 in
      let (done, t, p, n) = turn-accepted e m w c in
      let (all_done, ts, ps) = loop-accepted es ms w₁ cs in
      let a = append_assoc w.topic (m ∷ []) ms in (ground arith, ground arith, ground arith)

  module _ (ms : List Message) (w : World)
      (carried : AllCarry env (oldest_pending w.tables.outbox) ms) where
    block-accepted :
        IsSent (oldest_pending w.tables.outbox) ms (begun env w) (block env (begun env w))
    unfolding Outbox.lock_pending
    block-accepted =
        let w₁ = (Outbox.lock_pending env (begun env w)).1 in
        let a = reliable.runs (begun env w).tick in
        let (done, t, p) = loop-accepted (oldest_pending w.tables.outbox) ms w₁ carried in
        (ground arith, ground arith, ground arith)

    -- If the database and Kafka answer and every event of the batch decodes and encodes, the batch
    -- returns no error, all of its events are marked as sent, and the topic has grown by their
    -- messages, in the order of the events.
    pub publish_batch_progress :
        let (r, w') = publish_batch env (outbox_queue env) (producer env) w in
        (r ≡ ok tt)
        × (w'.tables ≡ record w.tables {
          outbox = all_sent (env.now w.tick) (oldest_pending w.tables.outbox) w.tables.outbox;
        })
        × (w'.topic ≡ w.topic ++ ms)
    unfolding publish_batch begin_func Outbox.count_pending
    publish_batch_progress =
        let (done, t, p) = block-accepted in
        let a = reliable.runs w.tick in
        let b = reliable.commits (block env (begun env w)).1.tick in
        let c = reliable.runs (begin_func env (block env) w).1.tick in
        (ground arith, ground arith, ground arith)
