-- ===== src/Events/Publishers/Turns.antt =====
-- One turn of the loop, by its mark, and what a transaction's marks do to the rows.
use share_trip.Base.{◌++◌, sym, ◌≡◌, ◌≢◌, refl, subst, ◌∙◌, List, [], ◌∷◌, inl, inr, arith}
use mathlib.Core.List.{Memᴰ}
use mathlib.Core.List.Memᴰ
use mathlib.Core.List.Memᴰ.{head, tail}
use share_trip.Result.{ok, Result-cases}
use share_trip.Domain.{Uuid, Time, OutboxEvent}
use share_trip.World.{World, Message}
use share_trip.Env.{Env}
use share_trip.Repository.Outbox.{update_event, has_event}
use share_trip.Repository.Lookup.{has_event-update_event}
use share_trip.Repository.Members.{IsKeyed, update_event-Mem, update_event-IsKeyed}
use share_trip.Events.{producer, publish_event, count_failure, count_success}
use share_trip.Events.Delivery.{
  Carries, sending, send-eq-ok, send-tables, mark_sent-eq-ok, mark_failed-eq-ok,
}
use share_trip.Events.Topic.{publish_event-topic}
use share_trip.Events.Publishers.{
  Mark, sent_at, failed_with, mark_id, mark_row, apply_marks, mark_of,
}
use share_trip.Wiring.{outbox_queue}

mark_row-id : (mk : Mark) (e : OutboxEvent) → (mark_row mk e).id ≡ e.id
mark_row-id (sent_at id now) e = refl
mark_row-id (failed_with id reason) e = refl

module _ (env : Env) (e : OutboxEvent) (w w' : World) {x : Unit {0}}
    (done : publish_event env (outbox_queue env) (producer env) e w ≡ (ok x, w')) where
  -- A turn that succeeds writes its mark, and nothing else.
  pub publish_event-mark_of :
      let mk = mark_of env e w in
      (mark_id mk ≡ e.id)
      × (w'.tables
          ≡ record w.tables { outbox = update_event (mark_id mk) (mark_row mk) w.tables.outbox })
  unfolding mark_of publish_event
  publish_event-mark_of =
      let (r, w₁) = sending env e w in
      let same = send-tables env e w in
      elim (Result-cases r) [
        | inl (y, f) ↦
            let (t, q) = mark_sent-eq-ok env (count_success w₁) w' e.id {x = x} (ground arith) in
            (ground arith, ground arith)
        | inr (reason, f) ↦
            let (t, q) =
              mark_failed-eq-ok env (count_failure w₁) w' e.id reason {x = x} (ground arith) in
            (ground arith, ground arith)
      ]

  -- When its mark says that the event is sent, Kafka has acknowledged the message.
  pub publish_event-Carries :
      (id : Uuid) (now : Time)
      → mark_of env e w ≡ sent_at id now
      → (id ≡ e.id) × (m : Message) × Memᴰ m w'.topic × Carries env e m
  unfolding mark_of
  publish_event-Carries id now marked =
      let (r, w₁) = sending env e w in
      elim (Result-cases r) [
        | inl (y, f) ↦
            let (m, c, p) = send-eq-ok env e w f in
            let t = publish_event-topic env e w in
            let there : w'.topic ≡ w.topic ++ (m ∷ []) = ground arith in
            (
              ground arith,
              m,
              subst (λ l. Memᴰ m l) (sym there) (Memᴰ.append_right w.topic (head refl)),
              c,
            )
        | inr (reason, f) ↦ absurd (ground arith)
      ]

pub apply_marks-Mem :
    (ms : List Mark) (o : List OutboxEvent) {x : OutboxEvent}
    → ((mk : Mark) → Memᴰ mk ms → x.id ≢ mark_id mk)
    → Memᴰ x o
    → Memᴰ x (apply_marks ms o)
unfolding apply_marks
apply_marks-Mem [] o others m = m
apply_marks-Mem (mk ∷ ms) o others m =
    apply_marks-Mem ms (update_event (mark_id mk) (mark_row mk) o) (λ nk n. others nk (tail n))
      (update_event-Mem (mark_id mk) (mark_row mk) o (others mk (head refl)) m)

pub apply_marks-IsKeyed :
    (ms : List Mark) (o : List OutboxEvent) → IsKeyed o → IsKeyed (apply_marks ms o)
unfolding apply_marks
apply_marks-IsKeyed [] o k = k
apply_marks-IsKeyed (mk ∷ ms) o k =
    apply_marks-IsKeyed ms (update_event (mark_id mk) (mark_row mk) o)
      (update_event-IsKeyed (mark_id mk) (mark_row mk) (mark_row-id mk) o k)

pub apply_marks-has_event :
    (ms : List Mark) (o : List OutboxEvent) (id : Uuid)
    → has_event id (apply_marks ms o) ≡ has_event id o
unfolding apply_marks
apply_marks-has_event [] o id = refl
apply_marks-has_event (mk ∷ ms) o id =
    apply_marks-has_event ms (update_event (mark_id mk) (mark_row mk) o) id
    ∙ has_event-update_event id (mark_id mk) (mark_row mk) o (mark_row-id mk)
