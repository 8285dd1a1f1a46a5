-- ===== src/Events/Draining.antt =====
-- Batches where nothing fails, until no event waits.
use share_trip.Base.{
  ◌⊎◌, ℕ, zero, suc, ◌-◌, ◌*◌, ◌≤◌, ◌≡◌, refl, sym, ap, subst, true, none, inl, inr, List, [], ◌∷◌,
  arith, Bool-cases,
}
use mathlib.Core.List.{Memᴰ}
use mathlib.Core.List.Memᴰ
use mathlib.Core.List.Memᴰ.{head, tail}
use share_trip.Domain.{OutboxEvent}
use share_trip.World.{World, Tables, Message}
use share_trip.Env.{Env}
use share_trip.Repository.Outbox.{is_pending, batch_limit, oldest_pending, has_event}
use share_trip.Repository.Reliable.{IsReliable}
use share_trip.Repository.Members.{IsKeyed, has_event-origin, oldest_pending-Mem}
use share_trip.Repository.Backlog.{backlog, tally-is_left, backlog-pos}
use share_trip.Events.{producer, run}
use share_trip.Events.Delivery.{Carries}
use share_trip.Events.Batch.{after_batch}
use share_trip.Events.Progress.{AllCarry, all_sent, publish_batch_progress}
use share_trip.Events.Remaining.{
  backlog-all_sent, tally-select, waiting-all_sent, left-all_sent, all_sent-IsKeyed,
}
use share_trip.Events.Starvation.{ticks}
use share_trip.Wiring.{outbox_queue}

-- Every event that waits has a message that can be sent.
abbrev pub IsReady : Env → List OutboxEvent → Type 0
IsReady env o = (e : OutboxEvent) → Memᴰ e o → is_pending e ≡ true → (m : Message) × Carries env e m

messages_of :
    (env : Env) (es : List OutboxEvent)
    → ((e : OutboxEvent) → Memᴰ e es → (m : Message) × Carries env e m)
    → (ms : List Message) × AllCarry env es ms
messages_of env [] h = ([], tt)
messages_of env (e ∷ es) h =
    let (m, c) = h e (head refl) in
    let (ms, cs) = messages_of env es (λ f n. h f (tail n)) in (m ∷ ms, (c, cs))

message_in :
    (env : Env) (es : List OutboxEvent) (ms : List Message) {e : OutboxEvent}
    → AllCarry env es ms
    → Memᴰ e es
    → (m : Message) × Memᴰ m ms × Carries env e m
message_in env [] ms c n = absurd (Memᴰ.not-nil n)
message_in env (f ∷ es) [] c n = absurd c
message_in env (f ∷ es) (m ∷ ms) {e} (c, cs) n = elim (Memᴰ.cases_cons n) [
  | inl q ↦ (m, head refl, subst (λ y. Carries env y m) (sym q) c)
  | inr r ↦ let (m', there, c') = message_in env es ms cs r in (m', tail there, c')
]

module _ (env : Env) (reliable : IsReliable env)
    (accepts : (n : ℕ) (m : Message) → env.write_messages n m ≡ none) where
  -- What a world has, and what a batch leaves of it.
  pub record Draining (w w' : World) : Type 0 where
    pub keyed : IsKeyed w'.tables.outbox
    pub ready : IsReady env w'.tables.outbox
    pub fewer : backlog w'.tables.outbox ≤ backlog w.tables.outbox - batch_limit
    pub kept : (m : Message) → Memᴰ m w.topic → Memᴰ m w'.topic
    pub taken :
        (e : OutboxEvent)
        → Memᴰ e w.tables.outbox
        → is_pending e ≡ true
        → Memᴰ e w'.tables.outbox ⊎ ((m : Message) × Memᴰ m w'.topic × Carries env e m)

  after_batch-Draining :
      (w : World)
      → IsKeyed w.tables.outbox
      → IsReady env w.tables.outbox
      → Draining w (after_batch env w)
  after_batch-Draining w keyed ready =
      let o = w.tables.outbox in
      let batch = oldest_pending o in
      let now = env.now w.tick in
      let (ms, carried) =
        messages_of env batch
          (λ e n. let (there, waits) = oldest_pending-Mem o n in ready e there waits) in
      let (done, t, p) = publish_batch_progress env reliable accepts ms w carried in
      let rows : (after_batch env w).tables.outbox ≡ all_sent now batch o =
        ap (λ (u : Tables). u.outbox) t in
      record {
        keyed = subst IsKeyed (sym rows) (all_sent-IsKeyed now batch o keyed);
        ready = λ e n waits.
            ready e (waiting-all_sent now batch o waits (subst (λ l. Memᴰ e l) rows n)) waits;
        fewer = omega (
          arith,
          ap backlog rows,
          backlog-all_sent now batch o,
          tally-select batch o,
          tally-is_left o,
        );
        kept = λ m n. subst (λ l. Memᴰ m l) (sym p) (Memᴰ.append_left ms n);
        taken = λ e n waits. elim (Bool-cases (has_event e.id batch)) [
          | inr out ↦ inl (subst (λ l. Memᴰ e l) (sym rows) (left-all_sent now batch o out n))
          | inl has ↦
              let (f, in_batch, same_id) = has_event-origin e.id batch has in
              let same = keyed f e (oldest_pending-Mem o in_batch).0 n same_id in
              let (m, there, c) =
                message_in env batch ms carried (subst (λ y. Memᴰ y batch) same in_batch) in
              inr (m, subst (λ l. Memᴰ m l) (sym p) (Memᴰ.append_right w.topic there), c)
        ];
      }

  pub run-Draining :
      (n : ℕ) (w : World)
      → IsKeyed w.tables.outbox
      → IsReady env w.tables.outbox
      → let w' = (run env (outbox_queue env) (producer env) (ticks n) w).1 in
        (backlog w'.tables.outbox ≤ backlog w.tables.outbox - n * batch_limit)
        × ((m : Message) → Memᴰ m w.topic → Memᴰ m w'.topic)
        × (backlog w.tables.outbox ≤ n * batch_limit
            → (e : OutboxEvent) → Memᴰ e w.tables.outbox
            → is_pending e ≡ true
            → (m : Message) × Memᴰ m w'.topic × Carries env e m)
  unfolding run ticks
  run-Draining zero w keyed ready = (
    omega arith,
    λ m n. n,
    λ few e n waits. absurd (let some_wait = backlog-pos w.tables.outbox n waits in omega arith),
  )
  run-Draining (suc k) w keyed ready =
      let d = after_batch-Draining w keyed ready in
      let (fewer, kept, sent) = run-Draining k (after_batch env w) d.keyed d.ready in
      (
        omega (arith, d.fewer),
        λ m n. kept m (d.kept m n),
        λ few e n waits. elim (d.taken e n waits) [
          | inl still ↦ sent (omega (arith, d.fewer)) e still waits
          | inr (m, there, c) ↦ (m, kept m there, c)
        ],
      )

  -- If the database and Kafka answer, rows with one id are one row, every waiting event decodes and
  -- encodes, and the publisher's ticks cover the backlog by a hundred events each, then at their end
  -- nothing waits, and each of the events has its message in the topic.
  pub run_drains :
      (n : ℕ) (w : World)
      → IsKeyed w.tables.outbox
      → IsReady env w.tables.outbox
      → backlog w.tables.outbox ≤ n * batch_limit
      → let w' = (run env (outbox_queue env) (producer env) (ticks n) w).1 in
        (backlog w'.tables.outbox ≡ 0)
        × ((e : OutboxEvent)
            → Memᴰ e w.tables.outbox
            → is_pending e ≡ true
            → (m : Message) × Memᴰ m w'.topic × Carries env e m)
  run_drains n w keyed ready few =
      let (fewer, kept, sent) = run-Draining n w keyed ready in
      (omega arith, λ e m waits. sent few e m waits)
