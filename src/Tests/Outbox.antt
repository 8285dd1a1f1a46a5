-- ===== src/Tests/Outbox.antt =====
-- Batches of the publisher.
use share_trip.Base.{ℕ, String, ◌≡◌, refl, ◌⊎◌, inl, inr, List, [], ◌∷◌, ◌++◌, map, All, length}
use mathlib.Core.List.{Perm}
use share_trip.Base.{select}
use share_trip.World.{Message}
use share_trip.Domain.{OutboxEvent}
use share_trip.Repository.Outbox.{oldest_pending, is_pending, batch_limit}
use share_trip.Repository.Selection.{IsOrdered, oldest_pending_lem}
use share_trip.Events.{run, producer, publish_batch}
use share_trip.Events.Delivery.{IsDelivered}
use share_trip.Events.Batch.{after_batch, publish_batch_atomic}
use share_trip.Events.Starvation.{IsPoison, ids, ticks, run_starved}
use share_trip.Wiring.{outbox_queue}
use share_trip.Base.Int.{pos}
use share_trip.Base.{subst}
use share_trip.Repository.Reliable.{IsReliable}
use share_trip.Events.{kafka_message}
use share_trip.Domain.{TripPublished}
use share_trip.Base.{sym, ◌∙◌, true, arith}
use mathlib.Core.List.{Memᴰ}
use mathlib.Core.List.Memᴰ
use share_trip.Repository.Members.{IsKeyed}
use share_trip.Repository.Backlog.{backlog}
use share_trip.Events.Delivery.{Carries}
use share_trip.Events.Draining.{IsReady, run_drains}
use share_trip.Tests.Setup.{env, event, queue, queued}

-- The older event comes first, and fails; the other is sent.
queue_order : map (λ (e : OutboxEvent). e.id) (oldest_pending queue) ≡ 1001 ∷ 1002 ∷ []
unfolding oldest_pending
queue_order = refl

batch_statuses :
    map (λ (e : OutboxEvent). e.status) (after_batch env (queued queue)).tables.outbox
    ≡ "sent" ∷ "pending" ∷ []
unfolding publish_batch share_trip.Repository.Outbox.count_pending
    share_trip.Service.Transaction.begin_func share_trip.Repository.Outbox.lock_pending
    share_trip.Events.publish_events share_trip.Base.Text.split
    share_trip.Repository.Outbox.mark_failed share_trip.Events.produce
    share_trip.Repository.Outbox.mark_sent
batch_statuses = refl

oldest_pending_lem_example :
    (rest : List OutboxEvent) × Perm (oldest_pending queue ++ rest) (select is_pending queue)
    × IsOrdered (oldest_pending queue ++ rest)
    × ((length (oldest_pending queue) ≡ batch_limit) ⊎ (rest ≡ []))
oldest_pending_lem_example = oldest_pending_lem queue

publish_batch_atomic_example :
    ((after_batch env (queued queue)).tables ≡ (queued queue).tables)
    ⊎ IsDelivered env (oldest_pending queue) (queued queue) (after_batch env (queued queue))
publish_batch_atomic_example = publish_batch_atomic env (queued queue)

abbrev stuck : List OutboxEvent
stuck = event 1001 "{" 3 ∷ []

stuck-IsPoison : All (IsPoison env) (oldest_pending stuck)
unfolding oldest_pending share_trip.Base.Text.split
stuck-IsPoison = ((_, refl), tt)

run_starved_example :
    let w' = (run env (outbox_queue env) (producer env) (ticks 2) (queued stuck)).1 in
    (ids (oldest_pending w'.tables.outbox) ≡ ids (oldest_pending stuck)) × (w'.topic ≡ [])
run_starved_example = run_starved env 2 (queued stuck) stuck-IsPoison

abbrev good : List OutboxEvent
good = event 1002 "1002,2" 5 ∷ []

abbrev good_message : TripPublished
good_message = record {
  event_id = "1002";
  event_type = "TripPublished";
  correlation_id = "";
  causation_id = "";
  trace_parent = "";
  trip_id = "2";
  driver_id = "7";
  company_id = "7";
  occurred_at = pos 0;
}

answers : IsReliable env
answers = record { runs = λ n. refl; commits = λ n. refl }

good-IsKeyed : IsKeyed good
good-IsKeyed e f m n q = Memᴰ.eq_of_singleton m ∙ sym (Memᴰ.eq_of_singleton n)

good_carried : Carries env (event 1002 "1002,2" 5) (kafka_message good_message "1002,2")
unfolding share_trip.Base.Text.split
good_carried = record {
  decoded = good_message;
  value = "1002,2";
  decodes = refl;
  encodes = refl;
  sent_as = refl;
}

good-IsReady : IsReady env good
good-IsReady e n waits = (
  kafka_message good_message "1002,2",
  subst (λ y. Carries env y (kafka_message good_message "1002,2")) (sym (Memᴰ.eq_of_singleton n))
      good_carried,
)

run_drains_example :
    let w' = (run env (outbox_queue env) (producer env) (ticks 1) (queued good)).1 in
    (backlog w'.tables.outbox ≡ 0)
    × ((e : OutboxEvent)
        → Memᴰ e good
        → is_pending e ≡ true
        → (m : Message) × Memᴰ m w'.topic × Carries env e m)
run_drains_example =
    run_drains env answers (λ n m. refl) 1 (queued good) good-IsKeyed good-IsReady (omega arith)
