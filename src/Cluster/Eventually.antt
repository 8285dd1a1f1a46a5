-- ===== src/Cluster/Eventually.antt =====
-- What becomes of every publication once nothing fails any more.
use share_trip.Base.{ℕ, ◌*◌, ◌≤◌, ◌≡◌, refl, subst, sym, ap, ◌∙◌, true, none, some, inl, inr}
use mathlib.Core.List.{Memᴰ}
use share_trip.Domain.{Uuid, Trip, OutboxEvent}
use share_trip.World.{World, Tables, Message}
use share_trip.Env.{Env, committed}
use share_trip.Repository.Trips.{find_trip}
use share_trip.Repository.Outbox.{batch_limit}
use share_trip.Repository.Members.{IsKeyed}
use share_trip.Repository.Backlog.{backlog}
use share_trip.Repository.Reliable.{IsReliable}
use share_trip.Lifecycle.Consistency.{IsInjective, is_announced}
use share_trip.Events.{producer, run}
use share_trip.Events.Correlated.{JsonRoundTrip}
use share_trip.Events.Delivery.{Carries}
use share_trip.Events.Draining.{IsReady, run-Draining}
use share_trip.Events.Starvation.{ticks}
use share_trip.Events.Publishers.{resting}
use share_trip.Cluster.{Cluster, Run, fresh}
use share_trip.Cluster.Stores.{Addressed}
use share_trip.Cluster.Invariant.{Run-IsSound}
use share_trip.Cluster.Announced.{Announces, Carries-Announces, published-Announces}
use share_trip.Wiring.{outbox_queue}

-- The same services, of which the database and Kafka answer from now on.
abbrev pub calm : Env → Env
calm env = record env { fault = λ n. none; commit = λ n. committed; write_messages = λ n m. none }

calm-IsReliable : (env : Env) → IsReliable (calm env)
calm-IsReliable env = record { runs = λ n. refl; commits = λ n. refl }

-- What a message carries does not depend on failures.
Carries-calm :
    (env : Env) {e : OutboxEvent} {m : Message} → Carries (calm env) e m → Carries env e m
Carries-calm env c = record {
  decoded = c.decoded;
  value = c.value;
  decodes = c.decodes;
  encodes = c.encodes;
  sent_as = c.sent_as;
}

-- `w` is what the database and the topic show of `c` to a publisher while no other one holds rows:
-- every transaction of a publisher has ended, by its commit or by its rollback.
pub record Continues (c : Cluster) (w : World) : Type 0 where
  pub at_rest : (i : ℕ) → c.publisher i ≡ resting
  pub same_tables : w.tables ≡ c.tables
  pub same_topic : w.topic ≡ c.topic

module _ (env : Env) (round_trip : JsonRoundTrip env) where
  -- An event that is about a trip can be sent.
  Addressed-Carries : (e : OutboxEvent) → Addressed env e → (m : Message) × Carries (calm env) e m
  Addressed-Carries e a = (
    _,
    record {
      decoded = a.message;
      value = e.payload;
      decodes = round_trip a.message e.payload a.encoded;
      encodes = a.encoded;
      sent_as = refl;
    },
  )

  module _ (injective : IsInjective env) {c : Cluster} (r : Run env fresh c) where
    outbox-IsKeyed : IsKeyed c.tables.outbox
    outbox-IsKeyed = (Run-IsSound env injective r).delivering.exclusive.keyed

    outbox-IsReady : IsReady (calm env) c.tables.outbox
    outbox-IsReady e there waits =
        Addressed-Carries e ((Run-IsSound env injective r).delivering.addressed e there)

    -- If event ids tell trips apart and JSON decodes what it has encoded: wherever requests and
    -- publishers have come, whatever has failed on the way, from a moment at which no publisher is in a
    -- transaction, once the database and Kafka answer and one publisher alone ticks often enough for
    -- the backlog, a hundred events a tick, and no request intervenes, the topic has the message that
    -- announces each trip that is published or started.
    pub eventually_announced :
        (n : ℕ) (w : World)
        → Continues c w
        → backlog c.tables.outbox ≤ n * batch_limit
        → (id : Uuid) (trip : Trip) → find_trip id c.tables.trips ≡ some trip
        → is_announced (some trip.status) ≡ true
        → let w' = (run (calm env) (outbox_queue (calm env)) (producer (calm env)) (ticks n) w).1 in
          (m : Message) × Memᴰ m w'.topic × Announces env id m
    eventually_announced n w continues few id trip found past =
        let o : w.tables.outbox ≡ c.tables.outbox =
          ap (λ (t : Tables). t.outbox) continues.same_tables in
        let (fewer, kept, sent) =
          run-Draining (calm env) (calm-IsReliable env) (λ k m. refl) n w
            (subst IsKeyed (sym o) outbox-IsKeyed)
            (subst (IsReady (calm env)) (sym o) outbox-IsReady) in
        let (e, there, is_key, state) =
          published-Announces env round_trip injective r id trip found past in
        elim state [
          | inr (m, on_topic, announces) ↦
              (m, kept m (subst (λ l. Memᴰ m l) (sym continues.same_topic) on_topic), announces)
          | inl waits ↦
              let (m, on_topic, carried) =
                sent (rw o few) e (subst (λ l. Memᴰ e l) (sym o) there) waits in
              let a = (Run-IsSound env injective r).delivering.addressed e there in
              let is_trip : a.trip_id ≡ id = injective a.trip_id id (sym a.event_id ∙ is_key) in
              (
                m,
                on_topic,
                subst (λ i. Announces env i m) is_trip
                    (Carries-Announces env round_trip a (Carries-calm env carried)),
              )
        ]
