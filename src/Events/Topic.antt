-- ===== src/Events/Topic.antt =====
-- The topic under a turn of the publisher's loop, whatever the turn returns.
use share_trip.Base.{◌≡◌, refl, sym, subst, ◌⊎◌, inl, inr, List, [], ◌∷◌, ◌++◌, arith, Option-cases}
use mathlib.Core.List.{Memᴰ}
use mathlib.Core.List.Memᴰ
use share_trip.GoError.{GoError}
use share_trip.Result.{ok, Result-cases}
use share_trip.Domain.{Uuid, OutboxEvent, TripPublished}
use share_trip.World.{World, Message}
use share_trip.Env.{Env}
use share_trip.Repository.Outbox
use share_trip.Events.{
  kafka_message, produce, producer, send, publish_event, count_failure, count_success,
}
use share_trip.Events.Delivery.{Carries}
use share_trip.Wiring.{outbox_queue}

-- Every message stays, and a new one carries the event.
pub record Grows (env : Env) (e : OutboxEvent) (p p' : List Message) : Type 0 where
  pub holds : (m : Message) → Memᴰ m p → Memᴰ m p'
  pub sources : (m : Message) → Memᴰ m p' → Memᴰ m p ⊎ Carries env e m

module _ (env : Env) where
  Grows-same : (e : OutboxEvent) {p p' : List Message} → p' ≡ p → Grows env e p p'
  Grows-same e q = record {
    holds = λ m n. subst (λ l. Memᴰ m l) (sym q) n;
    sources = λ m n. inl (subst (λ l. Memᴰ m l) q n);
  }

  Grows-added :
      {p p' : List Message} (e : OutboxEvent) (msg : Message)
      → Carries env e msg
      → p' ≡ p ++ (msg ∷ [])
      → Grows env e p p'
  Grows-added {p = p} e msg c q = record {
    holds = λ m n. subst (λ l. Memᴰ m l) (sym q) (Memᴰ.append_left (msg ∷ []) n);
    sources = λ m n. elim (Memᴰ.append_cases p (subst (λ l. Memᴰ m l) q n)) [
      | inl old ↦ inl old
      | inr new ↦ inr (subst (Carries env e) (sym (Memᴰ.eq_of_singleton new)) c)
    ];
  }

  produce-Grows :
      (e : OutboxEvent) (d : TripPublished) (w : World)
      → env.unmarshal_event e.payload ≡ ok d
      → Grows env e w.topic (produce env d w).1.topic
  unfolding produce
  produce-Grows e d w decodes = elim (Result-cases (env.marshal_event d)) [
    | inr (x, f) ↦ Grows-same e (ground arith)
    | inl (value, f) ↦
        let msg = kafka_message d value in
        elim (Option-cases (env.write_messages w.tick msg)) [
          | inr (text, g) ↦ Grows-same e (ground arith)
          | inl g ↦
              let c : Carries env e msg = record {
                decoded = d;
                value = value;
                decodes = decodes;
                encodes = f;
                sent_as = refl;
              } in
              Grows-added e msg c (ground arith)
        ]
  ]

  send-Grows :
      (e : OutboxEvent) (w : World)
      → Grows env e w.topic (send env (outbox_queue env) (producer env) e w).1.topic
  unfolding send
  send-Grows e w = elim (Result-cases (env.unmarshal_event e.payload)) [
    | inr (x, f) ↦ Grows-same e (ground arith)
    | inl (d, f) ↦
        let same : (send env (outbox_queue env) (producer env) e w).1.topic
            ≡ (produce env d w).1.topic =
          ground arith in
        subst (Grows env e w.topic) (sym same) (produce-Grows e d w f)
  ]

  mark_sent-topic : (id : Uuid) (w : World) → (Outbox.mark_sent env id w).1.topic ≡ w.topic
  unfolding Outbox.mark_sent
  mark_sent-topic id w = ground arith

  mark_failed-topic :
      (id : Uuid) (x : GoError) (w : World) → (Outbox.mark_failed env id x w).1.topic ≡ w.topic
  unfolding Outbox.mark_failed
  mark_failed-topic id x w = ground arith

  pub publish_event-topic :
      (e : OutboxEvent) (w : World)
      → (publish_event env (outbox_queue env) (producer env) e w).1.topic
        ≡ (send env (outbox_queue env) (producer env) e w).1.topic
  unfolding publish_event
  publish_event-topic e w =
      let (r, w₁) = send env (outbox_queue env) (producer env) e w in
      elim (Result-cases r) [
        | inl (x, f) ↦ ground (arith, mark_sent-topic e.id (count_success w₁))
        | inr (x, f) ↦ ground (arith, mark_failed-topic e.id x (count_failure w₁))
      ]

  pub publish_event-Grows :
      (e : OutboxEvent) (w : World)
      → Grows env e w.topic (publish_event env (outbox_queue env) (producer env) e w).1.topic
  publish_event-Grows e w =
      subst (Grows env e w.topic) (sym (publish_event-topic e w)) (send-Grows e w)
